-- ===== src/Log/Appenders.antt =====
-- The formatters of the appenders of a logger of yuyu/log.cc, and which of them write an event.
use yuyu.Log.{
  Level, Appender, Logger, Store, put_appender, pass_formatter, set_formatter, at_least, writes,
  writers, log, mem, is_nil, Kind, stdout_appender, file_appender, level_number,
}
use yuyu.Common.{
  ℕ, ◌≡◌, refl, sym, ap, ◌∙◌, inl, inr, Bool, true, false, not, ◌&&◌, ◌||◌, leb, some, Option, List,
  [], ◌∷◌, arith, ◌==◌, if◌then◌else◌, ==→eq, Bool-cases,
}

-- An appender with the formatter of the logger, unless it has its own.
abbrev pub with_formatter : Bool → Option ℕ → Appender → Appender
with_formatter listed val a =
    if listed && not a.has_formatter then record a { formatter = val } else a

with_formatter-twice :
    (b c : Bool) (val : Option ℕ) (a : Appender)
    → with_formatter c val (with_formatter b val a) ≡ with_formatter (b || c) val a
with_formatter-twice b c val a = ground arith

-- The store behind one appender of the loop.
abbrev passed : Option ℕ → ℕ → Store → Store
passed val x store =
    if (store x).has_formatter
    then store
    else put_appender x (record (store x) { formatter = val }) store

passed-at :
    (val : Option ℕ) (x id : ℕ) (store : Store)
    → passed val x store id ≡ with_formatter (id == x) val (store id)
passed-at val x id store = elim (Bool-cases (id == x)) [
  | inl same ↦ let e : store id ≡ store x = ap store (==→eq id x same) in ground arith
  | inr other ↦ ground arith
]

pass_formatter-lem :
    (val : Option ℕ) (ids : List ℕ) (store : Store) (id : ℕ)
    → pass_formatter val ids store id ≡ with_formatter (mem id ids) val (store id)
unfolding pass_formatter
pass_formatter-lem val [] store id = refl
pass_formatter-lem val (x ∷ ids) store id =
    pass_formatter-lem val ids (passed val x store) id
    ∙ ap (with_formatter (mem id ids) val) (passed-at val x id store)
    ∙ with_formatter-twice (id == x) (mem id ids) val (store id)

-- `setFormatter` gives the formatter to the logger and to those of its appenders that have none of
-- their own, also when an appender is listed twice, and leaves every other appender alone.
pub set_formatter-lem :
    (val : Option ℕ) (l : Logger) (store : Store) (id : ℕ)
    → ((set_formatter val l store).0.formatter ≡ val)
      × ((set_formatter val l store).1 id ≡ with_formatter (mem id l.appenders) val (store id))
unfolding set_formatter
set_formatter-lem val l store id = (refl, pass_formatter-lem val l.appenders store id)

-- What is expected to be written to: a file, or an appender whose level the event reaches.
abbrev pub is_file : Kind → Bool
is_file file_appender = true
is_file stdout_appender = false

abbrev pub reaches : Level → Level → Bool
reaches level limit = leb (level_number limit) (level_number level)

abbrev pub is_written : Level → Level → Store → ℕ → Bool
is_written level limit store id =
    reaches level limit && (is_file (store id).kind || reaches level (store id).level)

abbrev pub keep : (ℕ → Bool) → List ℕ → List ℕ
keep p [] = []
keep p (x ∷ xs) = if p x then x ∷ keep p xs else keep p xs

keep-none : (p : ℕ → Bool) (xs : List ℕ) → ((x : ℕ) → p x ≡ false) → keep p xs ≡ []
keep-none p [] h = refl
keep-none p (x ∷ xs) h = rw (h x) (keep-none p xs h)

writes-lem :
    (level : Level) (a : Appender) → writes level a ≡ (is_file a.kind || reaches level a.level)
unfolding writes
writes-lem level a = by_kind a.kind
  where
    by_kind :
        (k : Kind)
        → elim k as (λ _. Bool) [ stdout_appender ↦ at_least level a.level | file_appender ↦ true ]
          ≡ (is_file k || reaches level a.level)
    by_kind stdout_appender = refl
    by_kind file_appender = refl

writers-keep :
    (level limit : Level) (ids : List ℕ) (store : Store)
    → reaches level limit ≡ true
    → writers level ids store ≡ keep (is_written level limit store) ids
unfolding writers
writers-keep level limit [] store h = refl
writers-keep level limit (x ∷ ids) store h =
    rw (writes-lem level (store x), h, writers-keep level limit ids store h) refl

logs :
    (level : Level) (l : Logger) (root : Option Logger) (store : Store)
    → is_nil l.appenders ≡ false
    → log level l root store ≡ keep (is_written level l.level store) l.appenders
unfolding log
logs level l root store some_appenders = elim (Bool-cases (reaches level l.level)) [
  | inl reached ↦
      rw (reached, some_appenders) (writers-keep level l.level l.appenders store reached)
  | inr below ↦ rw below (sym (keep-none _ l.appenders (λ id. rw below refl)))
]

logs_to_root :
    (level : Level) (l r : Logger) (store : Store)
    → is_nil l.appenders ≡ true
    → reaches level l.level ≡ true
    → log level l (some r) store ≡ keep (is_written level r.level store) r.appenders
unfolding log
logs_to_root level l r store nothing reached = elim (Bool-cases (reaches level r.level)) [
  | inl above ↦ rw (reached, nothing, above) (writers-keep level r.level r.appenders store above)
  | inr below ↦ rw (reached, nothing, below) (sym (keep-none _ r.appenders (λ id. rw below refl)))
]

-- A logger with appenders writes an event to those of them, in their order, that are for files or
-- whose level the event reaches, and to none when it is below the level of the logger. A logger
-- without appenders hands an event of its level to the root, which does the same.
pub log-lem :
    (level : Level) (l r : Logger) (root : Option Logger) (store : Store)
    → (is_nil l.appenders ≡ false
        → log level l root store ≡ keep (is_written level l.level store) l.appenders)
      × (is_nil l.appenders ≡ true
          → reaches level l.level ≡ true
          → log level l (some r) store ≡ keep (is_written level r.level store) r.appenders)
log-lem level l r root store = (logs level l root store, logs_to_root level l r store)
