-- ===== src/Log/Tests.antt =====
-- Runs of yuyu/log.cc.
use yuyu.Http.{codes}
use yuyu.Log.{
  info, warn, error, literal, init_pattern, file_appender, stdout_appender, Logger, Store, log,
  is_nil,
}
use yuyu.Log.Formatting.{LogEvent, format_item, format_pieces, printed, format_pieces-init_pattern}
use yuyu.Log.Patterns.{Part, render}
use yuyu.Log.Appenders.{log-lem, keep, is_written, reaches, keep, is_written, reaches}
use yuyu.Common.{◌≡◌, refl, true, false, none, some, List, [], ◌∷◌, ◌==◌, if◌then◌else◌}

abbrev parts : List Part
parts =
    record { text = []; letter = 100; name = []; format = codes "%H:%M" }
    ∷ record { text = codes " ["; letter = 112; name = []; format = [] }
    ∷ []

-- The doubled percent sign is not an escape.
percent_fails :
    init_pattern (codes "100%%")
    ≡ (literal (codes "100%") ∷ literal (codes "<<error_format %>>") ∷ [], true)
unfolding init_pattern
percent_fails = refl

-- Appender 1 is a file, appender 2 has its own formatter.
abbrev store : Store
store id = record {
  kind = if id == 1 then file_appender else stdout_appender;
  level = error;
  formatter = some id;
  has_formatter = id == 2;
}

abbrev logger : Logger
logger = record { level = info; formatter = some 9; appenders = 1 ∷ 2 ∷ [] }

abbrev bare : Logger
bare = record logger { appenders = [] }

log_example :
    (is_nil logger.appenders ≡ false
      → log warn logger none store ≡ keep (is_written warn logger.level store) logger.appenders)
    × (is_nil logger.appenders ≡ true
        → reaches warn logger.level ≡ true
        → log warn logger (some bare) store
          ≡ keep (is_written warn bare.level store) bare.appenders)
log_example = log-lem warn logger bare none store

-- The file appender writes an event below its level.
file_writes_all : log warn logger none store ≡ 1 ∷ []
unfolding log
file_writes_all = refl

abbrev event : LogEvent
event = record {
  file = codes "a.cc";
  line = 7;
  elapse = 12;
  thread_id = 3;
  fiber_id = 0;
  time = 99;
  thread_name = codes "io";
  content = codes "hello";
  logger_name = codes "root";
}

format_example :
    (format_pieces (λ f t. f) (init_pattern (render parts (codes "] "))).0 info event
      ≡ printed (λ f t. f) parts (codes "] ") info event)
    × ((init_pattern (render parts (codes "] "))).1 ≡ false)
format_example =
    format_pieces-init_pattern (λ f t. f) parts (codes "] ") info event
      (
        (tt, (refl, tt), (refl, (refl, (refl, (refl, (refl, tt)))))),
        (((refl, (refl, tt)), (refl, tt), tt), tt),
      )
      (refl, (refl, tt)) (refl, (refl, tt))

printed_line : printed (λ f t. f) parts (codes "] ") info event ≡ codes "%H:%M [INFO] "
unfolding format_item
printed_line = refl
