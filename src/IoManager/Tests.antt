-- ===== src/IoManager/Tests.antt =====
-- Runs of the event registry of yuyu/iomanager.cc.
use yuyu.Common.{◌≡◌, refl, true, false, ◌&&◌, none, some, [], ◌∷◌, arith, ◌==◌}
use yuyu.IoManager.{
  done, read_event, FdContext, IoManager, Caller, Report, fresh, empty, reach, cancel_event,
  cancel_all, handle_report,
}
use yuyu.IoManager.Registry.{IsValid, fresh-lem}
use yuyu.IoManager.Adding.{registered}
use yuyu.IoManager.Waking.{Woken, without_event, cancel_event-Woken}
use yuyu.IoManager.Reports.{contexts_left, cancel_all-Woken, handle_report-Woken}

-- Descriptor 0 waits for reading, with fiber 5 of scheduler 9.
abbrev waits : FdContext
waits = record {
  read = record { scheduler = some 9; fiber = some 5; cb = none };
  write = empty;
  fd = 0;
  reads = true;
  writes = false;
}

abbrev one : IoManager
one = record { contexts = waits ∷ fresh 1 31; pending = 1; queue = [] }

one-IsValid : IsValid one
unfolding yuyu.IoManager.Registry.total
one-IsValid =
    let (a, t, l) = fresh-lem 1 31 in
    record {
      sound = (((refl, refl), refl), a);
      pending_lem = omega (arith, t);
      large = omega (arith, l);
      bounded = omega arith;
    }

abbrev caller : Caller
caller = record { scheduler = some 9; fiber = 6; exec = true }

cancel_event_example :
    (m' : IoManager) × (cancel_event 0 read_event 0 one
      ≡ done (registered 0 read_event one && (0 == 0), m'))
    × Woken (waits.read ∷ []) one m'
    × (m'.contexts ≡ without_event 0 read_event one)
cancel_event_example = cancel_event-Woken 0 read_event 0 one one-IsValid

abbrev hang_up : Report
hang_up = record { readable = true; writable = false; failed = true }

handle_report_example :
    (m' : IoManager) × (handle_report 0 hang_up 0 one ≡ done m')
    × Woken (waits.read ∷ []) one m'
    × (m'.contexts ≡ contexts_left true false 0 waits one)
handle_report_example =
    handle_report-Woken 0 0 hang_up one waits one-IsValid refl (λ h. refl) (λ h. h)

cancel_all_example :
    (m' : IoManager) × (cancel_all 0 0 one ≡ done (true, m')) × Woken (waits.read ∷ []) one m'
cancel_all_example = cancel_all-Woken 0 0 one waits one-IsValid refl
