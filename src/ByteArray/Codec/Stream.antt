-- ===== src/ByteArray/Codec/Stream.antt =====
-- Writing a run of bytes, going back and reading it again, for any pair of typed operations of
-- yuyu/bytearray.cc.
use native.Mathlib.Nat.{add_assoc}
use yuyu.Common.{
  ℕ, suc, ◌+◌, ◌≤◌, ◌<◌, ◌≡◌, refl, sym, ap, ◌∙◌, List, ◌++◌, append_assoc, arith, length, take,
  drop, length-append, length-take, length-drop, take_all, drop_all, drop-drop, take_append_left,
  drop_append_left, take_append_right, drop_append_right,
}
use yuyu.ByteArray.Chain.{splice}
use yuyu.ByteArray.Buffer.{ByteArray, M, ok, ◌>>◌, >>=-ok, read, set_position}
use yuyu.ByteArray.Buffer.Invariant.{IsValid, flat, length-flat}
use yuyu.ByteArray.Buffer.File.{File, file_write, file_rest, view, file_eq}
use yuyu.ByteArray.Buffer.Writing.{Written}
use yuyu.ByteArray.Buffer.Reading.{Taken, file_seek, read-Taken}
use yuyu.ByteArray.Buffer.Seeking.{set_position-refines}

pub length-content : (b : ByteArray) → IsValid b → length (view b).content ≡ b.size
length-content b v =
    length-take b.size (flat b) (omega (arith, length-flat b v, v.size-le-capacity))

-- The bytes that come next, and those behind them.
abbrev pub Ahead : ByteArray → List ℕ → List ℕ → Type 0
Ahead b bytes rest = file_rest (view b) ≡ bytes ++ rest

pub Ahead-fits :
    (b : ByteArray) (bytes rest : List ℕ)
    → IsValid b
    → Ahead b bytes rest
    → b.position + length bytes ≤ b.size
Ahead-fits b bytes rest v e = omega (
  arith,
  ap length e,
  length-append bytes rest,
  length-drop b.position (view b).content,
  length-content b v,
  v.position-le-size,
)

-- `read` takes exactly the bytes that come next.
pub read-Ahead :
    (b : ByteArray) (bytes rest : List ℕ)
    → IsValid b
    → 0 < length bytes
    → Ahead b bytes rest
    → (b' : ByteArray) × (read (length bytes) b ≡ ok bytes b') × Taken (length bytes) b b'
read-Ahead b bytes rest v h e =
    let fits = Ahead-fits b bytes rest v e in
    let (b', run, t) =
      read-Taken (length bytes) b v fits (omega (arith, fits, v.size-le-capacity)) in
    let same : take (length bytes) (file_rest (view b)) ≡ bytes =
      rw e (
        take_append_left (length bytes) bytes rest (omega arith)
        ∙ take_all _ bytes (omega arith)) in
    (b', run ∙ ap (λ x. ok x b') same, t)

-- What comes after those bytes.
pub Taken-Ahead :
    (b b' : ByteArray) (bytes more rest : List ℕ)
    → Ahead b (bytes ++ more) rest
    → Taken (length bytes) b b'
    → Ahead b' more rest
Taken-Ahead b b' bytes more rest e t =
    ap file_rest t.refines
    ∙ sym (drop-drop (length bytes) b.position (view b).content)
    ∙ ap (drop (length bytes)) (e ∙ append_assoc bytes more rest)
    ∙ drop_append_left (length bytes) bytes (more ++ rest) (omega arith)
    ∙ ap (λ xs. xs ++ (more ++ rest)) (drop_all (length bytes) bytes (omega arith))

pub Taken-trans : (m n : ℕ) (a b c : ByteArray) → Taken m a b → Taken n b c → Taken (m + n) a c
Taken-trans m n a b c s t = record {
  valid = t.valid;
  refines =
      t.refines
      ∙ file_eq (ap (λ f. f.content) s.refines) (omega (arith, ap (λ f. f.position) s.refines));
  same_flat = t.same_flat ∙ s.same_flat;
  same_base = t.same_base ∙ s.same_base;
  same_endian = t.same_endian ∙ s.same_endian;
  same_size = t.same_size ∙ s.same_size;
  same_capacity = t.same_capacity ∙ s.same_capacity;
}

-- One byte more.
pub Taken-step : (n : ℕ) (a b c : ByteArray) → Taken 1 a b → Taken n b c → Taken (suc n) a c
Taken-step n a b c s t =
    let one : 1 + n ≡ suc n = omega arith in rw one at (Taken-trans 1 n a b c s t)

take_at : (k : ℕ) (t x r : List ℕ) → k ≡ length t + length x → take k (t ++ (x ++ r)) ≡ t ++ x
take_at k t x r e =
    rw (e, take_append_right (length x) t (x ++ r), take_append_left (length x) x r (omega arith))
      (rw (take_all (length x) x (omega arith)) refl)

drop_at :
    (k j : ℕ) (t x r : List ℕ) → k ≡ length t + (length x + j) → drop k (t ++ (x ++ r)) ≡ drop j r
drop_at k j t x r e =
    rw (e, drop_append_right (length x + j) t (x ++ r), drop_append_right j x r) refl

-- Two writes in a row are one write of both runs.
file_write-append :
    (x y : List ℕ) (f : File)
    → f.position ≤ length f.content
    → file_write y (file_write x f) ≡ file_write (x ++ y) f
file_write-append x y f h =
    let t : List ℕ = take f.position f.content in
    let r : List ℕ = drop (f.position + length x) f.content in
    let lead : length t ≡ f.position = length-take f.position f.content h in
    let both = length-append x y in
    file_eq
      (rw
        (
          take_at (f.position + length x) t x r (omega arith),
          drop_at (f.position + length x + length y) (length y) t x r (omega arith),
          drop-drop (length y) (f.position + length x) f.content,
          append_assoc,
          append_assoc,
          both,
          ← add_assoc f.position (length x) (length y),
        )
        refl)
      (omega (arith, both))

pub Written-append :
    (x y : List ℕ) (a b c : ByteArray)
    → IsValid a
    → Written x a b
    → Written y b c
    → Written (x ++ y) a c
Written-append x y a b c v s t = record {
  valid = t.valid;
  refines =
      t.refines
      ∙ ap (file_write y) s.refines
      ∙ file_write-append x y (view a) (omega (arith, length-content a v, v.position-le-size));
  same_base = t.same_base ∙ s.same_base;
  same_endian = t.same_endian ∙ s.same_endian;
}

-- The run that was written is ahead once the position is set back.
rest_written :
    (x : List ℕ) (f : File)
    → f.position ≤ length f.content
    → file_rest (file_seek f.position (file_write x f))
      ≡ x ++ drop (f.position + length x) f.content
rest_written x f h =
    let lead = length-take f.position f.content h in
    let at : f.position ≡ length (take f.position f.content) + 0 = omega (arith, lead) in
    ap (λ k. drop k (splice f.position x f.content)) at
    ∙ drop_append_right 0 (take f.position f.content) (x ++ drop (f.position + length x) f.content)

module _ {ℓ} {A : Type ℓ} (wr : M (Unit {0})) (rd : M A) (a : A) (enc : List ℕ)
    (b : ByteArray) where
  -- A writer of `enc` and a reader of `enc` undo one another: after the position is set back the
  -- reader returns the value, and leaves the array as the writer did.
  pub replay :
      IsValid b
      → (b₁ : ByteArray) × (wr b ≡ ok tt b₁) × Written enc b b₁
      → ((c : ByteArray) (rest : List ℕ)
          → IsValid c
          → c.endian ≡ b.endian
          → Ahead c enc rest
          → (d : ByteArray) × (rd c ≡ ok a d) × Taken (length enc) c d)
      → (d : ByteArray) × ((wr >> (set_position b.position >> rd)) b ≡ ok a d)
        × IsValid d
        × (view d ≡ file_write enc (view b))
  replay v (b₁, wrote, w) reader =
      let end : b₁.position ≡ b.position + length enc = ap (λ f. f.position) w.refines in
      let (c, back, vc, seek, same_endian, _) =
        set_position-refines b.position b₁ w.valid (omega (arith, end, w.valid.position-le-size)) in
      let start : view c ≡ file_seek b.position (file_write enc (view b)) =
        seek ∙ ap (file_seek b.position) w.refines in
      let ahead =
        ap file_rest start
        ∙ rest_written enc (view b) (omega (arith, length-content b v, v.position-le-size)) in
      let (d, readback, t) =
        reader c (drop (b.position + length enc) (view b).content) vc (same_endian ∙ w.same_endian)
          ahead in
      (
        d,
        >>=-ok wr (λ _. set_position b.position >> rd) b wrote
            ∙ >>=-ok (set_position b.position) (λ _. rd) b₁ back
            ∙ readback,
        t.valid,
        t.refines ∙ file_eq (ap (λ f. f.content) start) (omega (arith, ap (λ f. f.position) start)),
      )
