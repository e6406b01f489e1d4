-- ===== src/ByteArray/Chain/Splice.antt =====
-- Laws of `splice`, and of chains as one run of bytes.
use native.Mathlib.Nat.{add_assoc}
use yuyu.Common.{
  ℕ, ◌+◌, ◌-◌, ◌*◌, ◌≤◌, ◌≡◌, refl, sym, List, [], ◌∷◌, ◌++◌, append_assoc, append-nil, arith,
  length, take, drop, concat, All, length-append, length-take, length-drop, take_append_left,
  drop_append_left, drop_append_right, take_append_right, take-drop, drop_all,
}
use yuyu.ByteArray.Chain.{Node, splice}

pub concat-append : (xs ys : List Node) → concat (xs ++ ys) ≡ concat xs ++ concat ys
concat-append [] ys = refl
concat-append (x ∷ xs) ys = rw (concat-append xs ys) (sym (append_assoc x (concat xs) (concat ys)))

-- Every node has the size that the array was made with.
abbrev pub Uniform : ℕ → List Node → Type 0
Uniform base = All (λ n. length n ≡ base)

pub Uniform-append :
    (base : ℕ) (xs ys : List Node) → Uniform base xs → Uniform base ys → Uniform base (xs ++ ys)
Uniform-append base [] ys hx hy = hy
Uniform-append base (x ∷ xs) ys hx hy = (hx.0, Uniform-append base xs ys hx.1 hy)

pub Uniform-left : (base : ℕ) (xs ys : List Node) → Uniform base (xs ++ ys) → Uniform base xs
Uniform-left base [] ys h = tt
Uniform-left base (x ∷ xs) ys h = (h.0, Uniform-left base xs ys h.1)

pub Uniform-right : (base : ℕ) (xs ys : List Node) → Uniform base (xs ++ ys) → Uniform base ys
Uniform-right base [] ys h = h
Uniform-right base (x ∷ xs) ys h = Uniform-right base xs ys h.1

pub length-concat :
    (base : ℕ) (ns : List Node) → Uniform base ns → length (concat ns) ≡ base * length ns
length-concat base [] h = omega arith
length-concat base (n ∷ ns) h =
    omega (arith, length-append n (concat ns), length-concat base ns h.1, h.0)

-- One more node in front adds its size to the offset of the pointer.
pub offset-snoc :
    (base : ℕ) (ns : List Node) (n : Node)
    → base * length (ns ++ (n ∷ [])) ≡ base * length ns + base
offset-snoc base ns n = rw (length-append ns (n ∷ [])) (omega arith)

pub length-splice :
    (npos : ℕ) (buf node : List ℕ)
    → npos + length buf ≤ length node
    → length (splice npos buf node) ≡ length node
length-splice npos buf node h = omega (
  arith,
  length-append (take npos node) (buf ++ drop (npos + length buf) node),
  length-append buf (drop (npos + length buf) node),
  length-take npos node,
  length-drop (npos + length buf) node,
)

-- A write that fits the first part stays in it.
pub splice_left :
    (npos : ℕ) (buf xs ys : List ℕ)
    → npos + length buf ≤ length xs
    → splice npos buf (xs ++ ys) ≡ splice npos buf xs ++ ys
splice_left npos buf xs ys h = rw (
  take_append_left npos xs ys (omega arith),
  drop_append_left (npos + length buf) xs ys h,
  append_assoc,
  append_assoc,
)

-- A write behind the first part leaves it alone.
pub splice_right :
    (n : ℕ) (buf xs ys : List ℕ) → splice (length xs + n) buf (xs ++ ys) ≡ xs ++ splice n buf ys
splice_right n buf xs ys =
    rw
      (
        take_append_right n xs ys,
        add_assoc (length xs) n (length buf),
        drop_append_right (n + length buf) xs ys,
        append_assoc,
      )
      refl

-- A write across the border fills the first part and goes on at the start of the second.
pub splice_across :
    (npos k : ℕ) (buf xs ys : List ℕ)
    → npos + k ≡ length xs
    → k ≤ length buf
    → splice npos buf (xs ++ ys) ≡ splice npos (take k buf) xs ++ splice 0 (drop k buf) ys
splice_across npos k buf xs ys e h = rw (
  take_append_left npos xs ys (omega arith),
  length-take k buf h,
  drop_all (npos + k) xs (omega arith),
  append-nil,
  past_first,
  append_assoc,
  ← append_assoc (take k buf) (drop k buf) (drop (0 + length (drop k buf)) ys),
  take-drop k buf,
  behind,
)
  where
    behind : 0 + length (drop k buf) ≡ length buf - k
    behind = omega (arith, length-drop k buf)

    reach : npos + length buf ≡ length xs + (length buf - k)
    reach = omega arith

    past_first : drop (npos + length buf) (xs ++ ys) ≡ drop (length buf - k) ys
    past_first = rw reach (drop_append_right (length buf - k) xs ys)
