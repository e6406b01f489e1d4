-- ===== src/Hook/Descriptors.antt =====
-- The hooks socket, accept and close of yuyu/hook.cc over the table of descriptors. The original
-- calls are arguments over a state `S`; a result that is not negative is a descriptor.
use yuyu.Common.{
  ℕ, ◌≤◌, ◌≡◌, ap, ◌∙◌, Bool, true, false, not, Option, none, some, ◌==◌, if◌then◌else◌, length,
  get_elem?,
}
use yuyu.Common.Int.{ℤ, pos, negsuc}
use yuyu.Fd.{FdCtx, FdManager, get, del}
use yuyu.Fd.Table.{get-get, get-del}

abbrev pub registered :
    {S : Type 0} → ℕ → S → Option (Option FdCtx × FdManager) → Option (ℤ × (FdManager × S))
registered n s none = none
registered n s (some (ctx, datas')) = some (pos n, (datas', s))

-- The context of a new descriptor is made; `none` is an index out of range.
abbrev pub register :
    {S : Type 0} → (ℕ → Option Bool) → ℤ → FdManager → S → Option (ℤ × (FdManager × S))
register stat (negsuc n) datas s = some (negsuc n, (datas, s))
register stat (pos n) datas s = registered n s (get stat (pos n) true datas)

-- `socket`; `socket_f` answers -1 or a descriptor. `accept` does the same with the answer of do_io.
unfoldable pub socket_hook :
    {S : Type 0}
    → (ℕ → Option Bool)
    → (S → ℤ × S)
    → Bool
    → FdManager
    → S
    → Option (ℤ × (FdManager × S))
unfolding get
socket_hook stat socket_f hook_enable datas s =
    let (fd, s') = socket_f s in
    if not hook_enable then some (fd, (datas, s')) else register stat fd datas s'

unfoldable pub accept_hook :
    {S : Type 0}
    → (ℕ → Option Bool)
    → (S → Option (ℤ × S))
    → FdManager
    → S
    → Option (ℤ × (FdManager × S))
unfolding get
accept_hook stat accept_io datas s = elim (accept_io s) [
  | none ↦ none
  | some (fd, s') ↦ register stat fd datas s'
]

-- What `close` calls before the original where there is a context: cancelAll of the IOManager of the
-- thread, if there is one.
abbrev pub cancelled : {S : Type 0} → Option (ℤ → S → S) → ℤ → S → S
cancelled none fd s = s
cancelled (some cancel_all) fd s = cancel_all fd s

abbrev pub with_table : {S : Type 0} → ℤ × S → Option FdManager → Option (ℤ × (FdManager × S))
with_table (rt, s) none = none
with_table (rt, s) (some datas) = some (rt, (datas, s))

-- By the context that is found.
abbrev pub close_found :
    {S : Type 0}
    → (plain after_cancel : ℤ × S) → ℤ
    → Option (Option FdCtx × FdManager)
    → Option (ℤ × (FdManager × S))
close_found plain after_cancel fd none = none
close_found plain after_cancel fd (some (none, datas)) = with_table plain (some datas)
close_found plain after_cancel fd (some (some ctx, datas)) = with_table after_cancel (del fd datas)

unfoldable pub close_hook :
    {S : Type 0}
    → (ℕ → Option Bool)
    → Option (ℤ → S → S)
    → (ℤ → S → ℤ × S)
    → Bool
    → ℤ
    → FdManager
    → S
    → Option (ℤ × (FdManager × S))
unfolding get del
close_hook stat iom close_f hook_enable fd datas s =
    if not hook_enable
    then with_table (close_f fd s) (some datas)
    else close_found (close_f fd s) (close_f fd (cancelled iom fd s)) fd (get stat fd false datas)

register-get :
    {S : Type 0} (stat : ℕ → Option Bool) (fd : ℤ) (n : ℕ) (datas datas' : FdManager)
    (ctx : Option FdCtx) (s : S)
    → fd ≡ pos n
    → get stat (pos n) true datas ≡ some (ctx, datas')
    → register stat fd datas s ≡ some (pos n, (datas', s))
register-get stat fd n datas datas' ctx s e run = rw e (ap (registered n s) run)

close_hook-there :
    {S : Type 0} (stat : ℕ → Option Bool) (iom : Option (ℤ → S → S)) (close_f : ℤ → S → ℤ × S)
    (n : ℕ) (datas datas' : FdManager) (ctx : FdCtx) (s : S)
    → get stat (pos n) false datas ≡ some (some ctx, datas)
    → del (pos n) datas ≡ some datas'
    → close_hook stat iom close_f true (pos n) datas s
      ≡ some (
        (close_f (pos n) (cancelled iom (pos n) s)).0,
        (datas', (close_f (pos n) (cancelled iom (pos n) s)).1),
      )
unfolding close_hook
close_hook-there stat iom close_f n datas datas' ctx s found deleted =
    let plain = close_f (pos n) s in
    let after_cancel = close_f (pos n) (cancelled iom (pos n) s) in
    ap (close_found plain after_cancel (pos n)) found ∙ ap (with_table after_cancel) deleted

-- With a table of the usual size, a descriptor that the hook of `socket` hands out has a context in
-- the table. The hook of `close` on a descriptor with a context cancels its events first, and then
-- the descriptor has none and the contexts of the others are as before.
pub socket_hook-close_hook :
    {S : Type 0} (stat : ℕ → Option Bool) (socket_f : S → ℤ × S) (iom : Option (ℤ → S → S))
    (close_f : ℤ → S → ℤ × S) (n : ℕ) (datas : FdManager) (s : S)
    → 64 ≤ length datas
    → (socket_f s).0 ≡ pos n
    → (ctx : FdCtx) × (datas' : FdManager) × (datas'' : FdManager) × (socket_hook stat socket_f true
          datas s
        ≡ some (pos n, (datas', (socket_f s).1)))
      × (get stat (pos n) false datas' ≡ some (some ctx, datas'))
      × (close_hook stat iom close_f true (pos n) datas' (socket_f s).1
          ≡ some (
            (close_f (pos n) (cancelled iom (pos n) (socket_f s).1)).0,
            (datas'', (close_f (pos n) (cancelled iom (pos n) (socket_f s).1)).1),
          ))
      × (get stat (pos n) false datas'' ≡ some (none, datas''))
      × ((other : ℕ) → (other == n) ≡ false → get_elem? datas'' other ≡ get_elem? datas' other)
unfolding socket_hook close_hook
socket_hook-close_hook stat socket_f iom close_f n datas s large e =
    let (ctx, datas', run, found, wide) = get-get stat n datas large in
    let (datas'', deleted, gone, kept) = get-del stat n datas' in
    (
      ctx,
      datas',
      datas'',
      register-get stat (socket_f s).0 n datas datas' (some ctx) (socket_f s).1 e run,
      found,
      close_hook-there stat iom close_f n datas' datas'' ctx (socket_f s).1 found deleted,
      gone,
      kept,
    )
