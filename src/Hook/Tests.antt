-- ===== src/Hook/Tests.antt =====
-- Runs of do_io of yuyu/hook.cc.
use yuyu.Fd.{FdCtx, receive, new_fd_ctx}
use yuyu.Hook.{Answer, returned, failed, answer, System, eintr, eagain, fails_with, do_io}
use yuyu.Hook.Waiting.{Drains, Settled, do_io-Settled}
use yuyu.Common.{
  ◌<◌, ◌≡◌, refl, sym, true, false, true≢false, ◌||◌, some, List, [], ◌∷◌, arith, length,
}

-- The system answers from a list, the last time with 5 bytes; addEvent works, and no timer fires.
abbrev script : System (List Answer)
script = record {
  call = λ s. elim s [ [] ↦ (returned 5, []) | a ∷ more ↦ (a, more) ];
  add_event = λ s. (true, s);
  wait = λ s. (false, s);
}

script-Drains : Drains script length
script-Drains = record {
  call_drains = used;
  event_keeps = λ s. omega arith;
  wait_keeps = λ s. omega arith;
}
  where
    used :
        (s : List Answer)
        → (fails_with eintr (script.call s).0 || fails_with eagain (script.call s).0) ≡ true
        → length (script.call s).1 < length s
    used [] h = absurd (true≢false (sym h))
    used (a ∷ more) h = omega arith

abbrev socket : FdCtx
socket = new_fd_ctx (λ fd. some true) 7

do_io_example :
    Settled 2 (do_io script true (some socket) receive 9 2 (failed eintr ∷ failed eagain ∷ []))
unfolding new_fd_ctx
do_io_example =
    do_io-Settled script socket receive length 9 2 (failed eintr ∷ failed eagain ∷ []) script-Drains
      (omega arith) refl refl refl

do_io_runs :
    do_io script true (some socket) receive 9 2 (failed eintr ∷ failed eagain ∷ [])
    ≡ some (answer (returned 5), (2, []))
unfolding do_io new_fd_ctx yuyu.Fd.get_timeout
do_io_runs = refl
