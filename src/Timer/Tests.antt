-- ===== src/Timer/Tests.antt =====
-- Runs of the timers of yuyu/timer.cc with numbers for callbacks.
use yuyu.Common.{is_some, ℕ, ◌≡◌, refl, true, false, some, [], ◌∷◌, map, if◌then◌else◌}
use yuyu.Timer.{
  TimerManager, new_manager, add_timer, refresh, expire, list_expired_cb, detect_clock_rollover,
  add64,
}
use yuyu.Timer.Order.{contains}
use yuyu.Timer.Invariant.{IsValid, new_manager-IsValid, add_timer-IsValid}
use yuyu.Timer.Rescheduling.{refresh-IsValid}
use yuyu.Timer.Expiry.{due}
use yuyu.Timer.Firing.{callback}
use yuyu.Timer.Listing.{list_expired_cb-lem}

abbrev none_yet : TimerManager ℕ
none_yet = new_manager 1000

-- A recurring timer at address 1, for 1050.
abbrev one : TimerManager ℕ
one = (add_timer 1 1000 50 (some 7) true none_yet).1

-- And one at address 2, for 1020.
abbrev two : TimerManager ℕ
two = (add_timer 2 1000 20 (some 8) false one).1

one-IsValid : IsValid one
unfolding new_manager
one-IsValid = add_timer-IsValid 1 1000 50 (some 7) true none_yet (new_manager-IsValid 1000) refl

lacks_two : contains 2 one.timers ≡ false
unfolding new_manager add_timer yuyu.Timer.add yuyu.Timer.insert
lacks_two = refl

two-IsValid : IsValid two
two-IsValid = add_timer-IsValid 2 1000 20 (some 8) false one one-IsValid lacks_two

two_order : two.timers ≡ 2 ∷ 1 ∷ []
unfolding new_manager add_timer yuyu.Timer.add yuyu.Timer.insert yuyu.Timer.less
    yuyu.Timer.new_timer
two_order = refl

lacks_nine : contains 9 two.timers ≡ false
lacks_nine = rw two_order refl

refresh_example :
    ((refresh 1 1010 two).0 ≡ is_some (two.store 1).cb)
    × IsValid (refresh 1 1010 two).1
    × (((refresh 1 1010 two).1.store 1).next
        ≡ (if is_some (two.store 1).cb then add64 1010 (two.store 1).ms else (two.store 1).next))
refresh_example = refresh-IsValid 1 1010 two two-IsValid

list_expired_cb_example :
    ((list_expired_cb 1060 9 two).0
      ≡ map (callback two) (
          if (detect_clock_rollover 1060 two).0 then two.timers else due two.store 1060 two.timers))
    × IsValid (list_expired_cb 1060 9 two).1
list_expired_cb_example = list_expired_cb-lem 1060 9 two two-IsValid lacks_nine
