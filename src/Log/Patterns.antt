-- ===== src/Log/Patterns.antt =====
-- The patterns and the names of the levels of yuyu/log.cc.
use yuyu.Http.{Text}
use yuyu.Http.Params.RoundTrip.{Lacks}
use yuyu.Log.{
  Level, unknow, debug, to_string, from_string, Piece, item, is_alpha, scanned, scan_format,
  scan_name, flush, init_loop, make_items, init_pattern, is_item,
}
use yuyu.Common.{
  ℕ, suc, ◌+◌, ◌-◌, ◌≤◌, ◌<◌, ◌≡◌, refl, sym, ap, ◌∙◌, Bool, true, false, List, [], ◌∷◌, ◌++◌,
  append-nil, append_assoc, arith, ◌==◌, length, All, length-append,
}

-- FromString knows none of the names that ToString prints: every level comes back as unknown.
pub from_string-to_string : (level : Level) → from_string (to_string level) ≡ unknow
unfolding from_string to_string
from_string-to_string debug = refl
from_string-to_string _ = refl

scan_format-lem :
    (name acc f s : Text)
    → Lacks 125 f
    → scan_format name acc (f ++ (125 ∷ s)) ≡ scanned name (acc ++ f) s
unfolding scan_format
scan_format-lem name acc [] s h = rw (append-nil acc) (ground arith)
scan_format-lem name acc (c ∷ f) s h =
    ground (arith, scan_format-lem name (acc ++ (c ∷ [])) f s h.1, append_assoc acc (c ∷ []) f)

abbrev pub IsName : Text → Type 0
IsName name = All (λ c. is_alpha c ≡ true) name

scan_name-lem :
    (acc name f s : Text)
    → IsName name
    → scan_name acc (name ++ (123 ∷ (f ++ (125 ∷ s))))
      ≡ scan_format (acc ++ name) [] (f ++ (125 ∷ s))
unfolding scan_name
scan_name-lem acc [] f s h = rw (append-nil acc) (ground arith)
scan_name-lem acc (c ∷ name) f s h =
    ground (arith, scan_name-lem (acc ++ (c ∷ [])) name f s h.1, append_assoc acc (c ∷ []) name)

init_loop-text :
    (t s nstr : Text) (fuel : ℕ)
    → Lacks 37 t
    → init_loop (length t + fuel) nstr (t ++ s) ≡ init_loop fuel (nstr ++ t) s
unfolding init_loop
init_loop-text [] s nstr fuel h =
    let e : 0 + fuel ≡ fuel = omega arith in rw (e, append-nil nstr) refl
init_loop-text (c ∷ t) s nstr fuel h =
    let e : suc (length t) + fuel ≡ suc (length t + fuel) = omega arith in
    rw e
      (ground (arith, init_loop-text t s (nstr ++ (c ∷ [])) fuel h.1, append_assoc nstr (c ∷ []) t))

abbrev with_item : Text → Text → Text → List Piece × Bool → List Piece × Bool
with_item nstr name f r = (flush nstr (item name f ∷ r.0), r.1)

init_loop-item :
    (nstr name f s : Text) (c fuel : ℕ)
    → IsName (c ∷ name)
    → Lacks 125 f
    → init_loop (suc fuel) nstr (37 ∷ ((c ∷ name) ++ (123 ∷ (f ++ (125 ∷ s)))))
      ≡ with_item nstr (c ∷ name) f (init_loop fuel [] s)
unfolding init_loop
init_loop-item nstr name f s c fuel h k =
    let not_percent : (c == 37) ≡ false = ground arith in
    let found = scan_name-lem [] (c ∷ name) f s h ∙ scan_format-lem (c ∷ name) [] f s k in
    ground arith

-- A text before an item, its name, which has a letter, and its format.
pub record Part : Type 0 where
  pub text : Text
  pub letter : ℕ
  pub name : Text
  pub format : Text

abbrev pub render : List Part → Text → Text
render [] tail = tail
render (p ∷ ps) tail =
    p.text ++ (37 ∷ ((p.letter ∷ p.name) ++ (123 ∷ (p.format ++ (125 ∷ render ps tail)))))

abbrev pub pieces : List Part → Text → List Piece
pieces [] tail = flush tail []
pieces (p ∷ ps) tail = flush p.text (item (p.letter ∷ p.name) p.format ∷ pieces ps tail)

abbrev pub IsPart : Part → Type 0
IsPart p = Lacks 37 p.text × IsName (p.letter ∷ p.name) × Lacks 125 p.format

init_loop-nil : (nstr : Text) (fuel : ℕ) → init_loop (suc fuel) nstr [] ≡ (flush nstr [], false)
unfolding init_loop
init_loop-nil nstr fuel = refl

length-part :
    (text name f rest : Text)
    → length text + length rest + 3 ≤ length (text ++ (37 ∷ (name ++ (123 ∷ (f ++ (125 ∷ rest))))))
length-part text name f rest = omega (
  arith,
  length-append text (37 ∷ (name ++ (123 ∷ (f ++ (125 ∷ rest))))),
  length-append name (123 ∷ (f ++ (125 ∷ rest))),
  length-append f (125 ∷ rest),
)

init_loop-render :
    (ps : List Part) (tail : Text) (fuel : ℕ)
    → All IsPart ps
    → Lacks 37 tail
    → length (render ps tail) < fuel
    → init_loop fuel [] (render ps tail) ≡ (pieces ps tail, false)
init_loop-render [] tail fuel h k f =
    let extra = fuel - length tail - 1 in
    let e : fuel ≡ length tail + suc extra = omega arith in
    ap (λ n. init_loop n [] tail) e
    ∙ ap (init_loop (length tail + suc extra) []) (sym (append-nil tail))
    ∙ init_loop-text tail [] [] (suc extra) k
    ∙ init_loop-nil tail extra
init_loop-render (p ∷ ps) tail fuel h k f =
    let rest = render ps tail in
    let left = fuel - length p.text - 1 in
    let long = length-part p.text (p.letter ∷ p.name) p.format rest in
    let e : fuel ≡ length p.text + suc left = omega (arith, long, f) in
    ap (λ n. init_loop n [] (render (p ∷ ps) tail)) e
    ∙ init_loop-text p.text (37 ∷ ((p.letter ∷ p.name) ++ (123 ∷ (p.format ++ (125 ∷ rest))))) []
        (suc left) (h.0).0
    ∙ init_loop-item p.text p.name p.format rest p.letter left (h.0).1 (h.0).2
    ∙ ap (with_item p.text (p.letter ∷ p.name) p.format)
        (init_loop-render ps tail left h.1 k (omega (arith, long, f)))

-- The parts of a pattern whose names are all known give their items back.
abbrev pub IsKnown : Part → Type 0
IsKnown p = is_item (p.letter ∷ p.name) ≡ true

make_items-flush :
    (nstr : Text) (ps : List Piece)
    → make_items ps ≡ (ps, false)
    → make_items (flush nstr ps) ≡ (flush nstr ps, false)
unfolding make_items
make_items-flush [] ps h = h
make_items-flush (c ∷ nstr) ps h = ground arith

make_items-pieces :
    (ps : List Part) (tail : Text)
    → All IsKnown ps
    → make_items (pieces ps tail) ≡ (pieces ps tail, false)
unfolding make_items
make_items-pieces [] tail h = make_items-flush tail [] refl
make_items-pieces (p ∷ ps) tail h =
    make_items-flush p.text (item (p.letter ∷ p.name) p.format ∷ pieces ps tail)
      (ground (arith, make_items-pieces ps tail h.1, h.0))

-- A pattern that is put together from texts without a percent sign and known items with their
-- formats in braces is taken apart into them, and no error is set.
pub init_pattern-render :
    (ps : List Part) (tail : Text)
    → All IsPart ps
    → All IsKnown ps
    → Lacks 37 tail
    → init_pattern (render ps tail) ≡ (pieces ps tail, false)
unfolding init_pattern
init_pattern-render ps tail h known k = ground (
  arith,
  init_loop-render ps tail (suc (length (render ps tail))) h k (omega arith),
  make_items-pieces ps tail known,
)
