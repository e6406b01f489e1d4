-- ===== src/Log.antt =====
-- The levels, patterns, appenders and loggers of yuyu/log.cc. Formatters and appenders are named by
-- numbers, and appenders live in a store, since loggers share them. What is written is the list of
-- the appenders that write; `Log.Formatting` has the text of an event. YAML is outside.
pub mod Patterns
pub mod Formatting
pub mod Appenders
mod Tests
use yuyu.Http.{Text, codes, text_eq}
use yuyu.Common.{
  is_some, ℕ, zero, suc, ◌+◌, ◌%◌, ◌<◌, ap, Bool, true, false, not, ◌&&◌, ◌||◌, Option, none, some,
  List, [], ◌∷◌, ◌++◌, leb, ◌==◌, if◌then◌else◌, length, set,
}

pub data Level : Type 0 where
  unknow debug info warn error fatal : Level

abbrev pub level_number : Level → ℕ
level_number unknow = 0
level_number debug = 1
level_number info = 2
level_number warn = 3
level_number error = 4
level_number fatal = 5

unfoldable pub to_string : Level → Text
to_string debug = codes "DEBUG"
to_string info = codes "INFO"
to_string warn = codes "WARN"
to_string error = codes "ERROR"
to_string fatal = codes "FATAL"
to_string unknow = codes "UNKONW"

unfoldable pub from_string : Text → Level
from_string str =
    if text_eq str (codes "debug")
    then debug
    else if text_eq str (codes "info")
    then info
    else if text_eq str (codes "warn")
    then warn
    else if text_eq str (codes "error")
    then error
    else if text_eq str (codes "fatal")
    then fatal
    else unknow

-- An entry of `vec` in `LogFormatter::init`: a text, or a name behind a percent sign with its format.
pub data Piece : Type 0 where
  literal : Text → Piece
  item : (name format : Text) → Piece

abbrev pub is_alpha : ℕ → Bool
is_alpha c = (leb 65 c && leb c 90) || (leb 97 c && leb c 122)

-- Where the inner loop ends: the name, the format, and the rest of the pattern; or in an open brace.
pub data Scan : Type 0 where
  scanned : (name format rest : Text) → Scan
  unclosed : Scan

-- In the braces, with the format so far.
unfoldable pub scan_format : Text → Text → Text → Scan
scan_format name format [] = unclosed
scan_format name format (c ∷ s) =
    if c == 125 then scanned name format s else scan_format name (format ++ (c ∷ [])) s

-- Before the braces, with the name so far.
unfoldable pub scan_name : Text → Text → Scan
unfolding scan_format
scan_name name [] = scanned name [] []
scan_name name (c ∷ s) =
    if c == 123
    then scan_format name [] s
    else if is_alpha c || (c == 125)
    then scan_name (name ++ (c ∷ [])) s
    else scanned name [] (c ∷ s)

abbrev pub flush : Text → List Piece → List Piece
flush [] pieces = pieces
flush (c ∷ nstr) pieces = literal (c ∷ nstr) ∷ pieces

abbrev pub next_is_percent : Text → Bool
next_is_percent [] = false
next_is_percent (c ∷ s) = c == 37

-- The outer loop with the text so far, and whether an error was met. Behind a doubled percent sign it
-- goes on at the second one. In an open brace it goes on behind the percent sign.
unfoldable pub init_loop : ℕ → Text → Text → List Piece × Bool
unfolding scan_name
init_loop zero nstr pattern = ([], true)
init_loop (suc fuel) nstr [] = (flush nstr [], false)
init_loop (suc fuel) nstr (c ∷ s) =
    if not (c == 37)
    then init_loop fuel (nstr ++ (c ∷ [])) s
    else if next_is_percent s
    then init_loop fuel (nstr ++ (37 ∷ [])) s
    else elim (scan_name [] s) [
      | scanned name format rest ↦
          let (pieces, err) = init_loop fuel [] rest in
          (flush nstr (item name format ∷ pieces), err)
      | unclosed ↦
          let (pieces, err) = init_loop fuel nstr s in
          (literal (codes "<<pattern_error>>") ∷ pieces, true)
    ]

-- The names of the items.
abbrev pub item_names : List ℕ
item_names = codes "mprctndflTFN"

abbrev pub mem : ℕ → List ℕ → Bool
mem c [] = false
mem c (d ∷ ds) = (c == d) || mem c ds

abbrev pub is_item : Text → Bool
is_item (c ∷ []) = mem c item_names
is_item _ = false

-- The items that are made of the pieces: one without a known name becomes an error text.
unfoldable pub make_items : List Piece → List Piece × Bool
make_items [] = ([], false)
make_items (literal text ∷ more) = let (items, err) = make_items more in (literal text ∷ items, err)
make_items (item name format ∷ more) =
    let (items, err) = make_items more in
    if is_item name
    then (item name format ∷ items, err)
    else (literal (codes "<<error_format %" ++ name ++ codes ">>") ∷ items, true)

-- `LogFormatter::init`: the items, and `m_error`.
unfoldable pub init_pattern : Text → List Piece × Bool
unfolding init_loop make_items
init_pattern pattern =
    let (pieces, err) = init_loop (suc (length pattern)) [] pattern in
    let (items, err') = make_items pieces in (items, err || err')

pub data Kind : Type 0 where
  file_appender stdout_appender : Kind

pub record Appender : Type 0 where
  pub kind : Kind
  pub level : Level
  pub formatter : Option ℕ
  pub has_formatter : Bool

pub record Logger : Type 0 where
  pub level : Level
  pub formatter : Option ℕ
  pub appenders : List ℕ

abbrev pub Store : Type 0
Store = ℕ → Appender

abbrev pub put_appender : ℕ → Appender → Store → Store
put_appender id a store other = if other == id then a else store other

-- `LogAppender::setFormatter`
unfoldable pub appender_set_formatter : Option ℕ → Appender → Appender
appender_set_formatter val a = record a { formatter = val; has_formatter = is_some val }

unfoldable pub add_appender : ℕ → Logger → Store → Logger × Store
add_appender id l store = (
  record l { appenders = l.appenders ++ (id ∷ []) },
  if is_some (store id).formatter
      then store
      else put_appender id (record (store id) { formatter = l.formatter }) store,
)

abbrev pub erase_first : ℕ → List ℕ → List ℕ
erase_first id [] = []
erase_first id (x ∷ xs) = if x == id then xs else x ∷ erase_first id xs

unfoldable pub del_appender : ℕ → Logger → Logger
del_appender id l = record l { appenders = erase_first id l.appenders }

unfoldable pub clear_appenders : Logger → Logger
clear_appenders l = record l { appenders = [] }

-- The loop of `setFormatter` over the appenders.
unfoldable pub pass_formatter : Option ℕ → List ℕ → Store → Store
pass_formatter val [] store = store
pass_formatter val (id ∷ ids) store = pass_formatter val ids (
    if (store id).has_formatter
    then store
    else put_appender id (record (store id) { formatter = val }) store)

unfoldable pub set_formatter : Option ℕ → Logger → Store → Logger × Store
unfolding pass_formatter
set_formatter val l store =
    let l' = record l { formatter = val } in (l', pass_formatter val l.appenders store)

-- The overload that takes a pattern, whose formatter is named `id`.
unfoldable pub set_pattern : ℕ → Text → Logger → Store → Logger × Store
unfolding set_formatter init_pattern
set_pattern id pattern l store =
    if (init_pattern pattern).1 then (l, store) else set_formatter (some id) l store

abbrev pub at_least : Level → Level → Bool
at_least level limit = leb (level_number limit) (level_number level)

-- Whether an appender writes an event: a file appender writes it at every level.
unfoldable pub writes : Level → Appender → Bool
writes level a = elim a.kind [ stdout_appender ↦ at_least level a.level | file_appender ↦ true ]

-- The appenders that write an event, in their order.
unfoldable pub writers : Level → List ℕ → Store → List ℕ
unfolding writes
writers level [] store = []
writers level (id ∷ ids) store =
    let more = writers level ids store in if writes level (store id) then id ∷ more else more

abbrev pub is_nil : List ℕ → Bool
is_nil [] = true
is_nil (x ∷ xs) = false

-- `Logger::log`, with the root of the logger, which has no root itself.
unfoldable pub log : Level → Logger → Option Logger → Store → List ℕ
unfolding writers
log level l root store =
    if not (at_least level l.level)
    then []
    else if not (is_nil l.appenders)
    then writers level l.appenders store
    else elim root [
      | none ↦ []
      | some r ↦ if at_least level r.level then writers level r.appenders store else []
    ]
