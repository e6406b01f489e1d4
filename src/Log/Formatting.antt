-- ===== src/Log/Formatting.antt =====
-- The items of yuyu/log.cc, and what a formatter prints of an event. `local_time` is what
-- localtime_r and strftime make of a format and a time.
use yuyu.Common.{
  ℕ, ◌≡◌, refl, ap, ◌∙◌, false, List, [], ◌∷◌, ◌++◌, append-nil, ◌==◌, if◌then◌else◌, All,
}
use yuyu.Http.{Text, codes}
use yuyu.Http.Message.{decimal}
use yuyu.Log.{Level, to_string, Piece, literal, item, flush, init_pattern}
use yuyu.Log.Patterns.{Part, render, pieces, IsPart, IsKnown, init_pattern-render}
use yuyu.Http.Params.RoundTrip.{Lacks}

pub record LogEvent : Type 0 where
  pub file : Text
  pub line : ℕ
  pub elapse : ℕ
  pub thread_id : ℕ
  pub fiber_id : ℕ
  pub time : ℕ
  pub thread_name : Text
  pub content : Text
  pub logger_name : Text

-- The constructor of the item for a date: an empty format becomes the usual one.
unfoldable pub date_format : Text → Text
date_format [] = codes "%Y-%m-%d %H:%M:%S"
date_format (c ∷ format) = c ∷ format

module _ (local_time : Text → ℕ → Text) where
  -- The `format` of each class of items, by the letter of its name.
  unfoldable pub format_item : ℕ → Text → Level → LogEvent → Text
  unfolding date_format to_string decimal
  format_item letter format level event =
      if letter == 109
      then event.content
      else if letter == 112
      then to_string level
      else if letter == 114
      then decimal event.elapse
      else if letter == 99
      then event.logger_name
      else if letter == 116
      then decimal event.thread_id
      else if letter == 110
      then 10 ∷ []
      else if letter == 100
      then local_time (date_format format) event.time
      else if letter == 102
      then event.file
      else if letter == 108
      then decimal event.line
      else if letter == 84
      then 9 ∷ []
      else if letter == 70
      then decimal event.fiber_id
      else if letter == 78
      then event.thread_name
      else []

  abbrev pub format_named : Text → Text → Level → LogEvent → Text
  format_named [] format level event = []
  format_named (letter ∷ name) format level event = format_item letter format level event

  -- `LogFormatter::format`
  unfoldable pub format_pieces : List Piece → Level → LogEvent → Text
  format_pieces [] level event = []
  format_pieces (literal text ∷ items) level event = text ++ format_pieces items level event
  format_pieces (item name format ∷ items) level event =
      format_named name format level event ++ format_pieces items level event

  -- What is expected of a pattern: each text as it stands, and what each item stands for.
  abbrev pub printed : List Part → Text → Level → LogEvent → Text
  printed [] tail level event = tail
  printed (p ∷ ps) tail level event =
      p.text ++ (format_item p.letter p.format level event ++ printed ps tail level event)

  format_pieces-flush :
      (text : Text) (items : List Piece) (level : Level) (event : LogEvent)
      → format_pieces (flush text items) level event ≡ text ++ format_pieces items level event
  unfolding format_pieces
  format_pieces-flush [] items level event = refl
  format_pieces-flush (c ∷ text) items level event = refl

  format_pieces-pieces :
      (ps : List Part) (tail : Text) (level : Level) (event : LogEvent)
      → format_pieces (pieces ps tail) level event ≡ printed ps tail level event
  unfolding format_pieces
  format_pieces-pieces [] tail level event =
      format_pieces-flush tail [] level event ∙ append-nil tail
  format_pieces-pieces (p ∷ ps) tail level event =
      format_pieces-flush p.text (item (p.letter ∷ p.name) p.format ∷ pieces ps tail) level event
      ∙ ap (λ more. p.text ++ (format_item p.letter p.format level event ++ more))
          (format_pieces-pieces ps tail level event)

  -- A formatter that is made of a pattern of texts and known items with formats prints each text as
  -- it stands and, in its place, what each item stands for, and has no error.
  pub format_pieces-init_pattern :
      (ps : List Part) (tail : Text) (level : Level) (event : LogEvent)
      → All IsPart ps
      → All IsKnown ps
      → Lacks 37 tail
      → (format_pieces (init_pattern (render ps tail)).0 level event ≡ printed ps tail level event)
        × ((init_pattern (render ps tail)).1 ≡ false)
  format_pieces-init_pattern ps tail level event h k l =
      let e = init_pattern-render ps tail h k l in
      (
        ap (λ r. format_pieces r.0 level event) e ∙ format_pieces-pieces ps tail level event,
        ap (λ r. r.1) e,
      )
