-- ===== src/Config/Listeners.antt =====
-- The listeners of the variables of yuyu/config.h.
use yuyu.Common.{ℕ, ◌+◌, ◌%◌, ◌^◌, ◌≡◌, refl, some, [], ◌∷◌, tests, ◌==◌, if◌then◌else◌}
use yuyu.Config.{Callbacks, put_callback, find_callback, ConfigVar, add_listener, get_listener}

find_callback-put_callback :
    (key cb other : ℕ) (cbs : Callbacks)
    → find_callback other (put_callback key cb cbs)
      ≡ (if key == other then some cb else find_callback other cbs)
unfolding find_callback put_callback
find_callback-put_callback key cb other [] = refl
find_callback-put_callback key cb other ((k, c) ∷ rest) =
    grind (tests, find_callback-put_callback key cb other rest)

-- After `addListener` the returned key has the callback, every other key has what it had, and the
-- value is the same.
get_listener-add_listener :
    {T : Type 0} (fun_id cb other : ℕ) (var : ConfigVar T)
    → (get_listener other (add_listener fun_id cb var).1.1
        ≡ (if (add_listener fun_id cb var).1.0 == other then some cb else get_listener other var))
      × ((add_listener fun_id cb var).1.1.val ≡ var.val)
unfolding get_listener add_listener
get_listener-add_listener fun_id cb other var =
    (find_callback-put_callback ((fun_id + 1) % 2 ^ 64) cb other var.cbs, refl)
