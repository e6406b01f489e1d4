-- ===== src/ByteArray/Buffer/File.antt =====
-- What a byte array promises: the bytes up to `m_size` and a position in them, as in a file. The
-- chain of nodes, its capacity and the stale bytes behind `m_size` are forgotten.
use native.Mathlib.Nat.{add-zero}
use yuyu.Common.{
  take-drop, ℕ, ◌+◌, ◌-◌, ◌≤◌, ◌≡◌, refl, List, [], ◌++◌, arith, length, take, drop, length-take,
  take-take, drop-take, take_append_right,
}
use yuyu.ByteArray.Chain.{splice}
use yuyu.ByteArray.Buffer.{ByteArray}
use yuyu.ByteArray.Buffer.Invariant.{flat}

pub record File : Type 0 where
  pub content : List ℕ
  pub position : ℕ

-- Put `buf` over the bytes at the position, past the end where it is longer.
abbrev pub file_write : List ℕ → File → File
file_write buf f = record {
  content = splice f.position buf f.content;
  position = f.position + length buf;
}

abbrev pub file_rest : File → List ℕ
file_rest f = drop f.position f.content

abbrev pub view : ByteArray → File
view b = record { content = take b.size (flat b); position = b.position }

pub file_eq :
    {c d : List ℕ} {p q : ℕ}
    → c ≡ d
    → p ≡ q
    → ◌≡◌ {A = File} (record { content = c; position = p }) (record { content = d; position = q })
file_eq e h = λ i. record { content = e i; position = h i }

-- Nothing to write changes nothing.
pub file_write-nil : (f : File) → file_write [] f ≡ f
file_write-nil f = file_eq (rw add-zero (take-drop f.position f.content)) (add-zero f.position)

-- A write seen through the first `s` bytes, or as many as it reaches to.
pub take-splice :
    (p s : ℕ) (buf xs : List ℕ)
    → p ≤ s
    → s ≤ length xs
    → take (p + length buf + (s - (p + length buf))) (splice p buf xs) ≡ splice p buf (take s xs)
take-splice p s buf xs hp hs =
    rw
      (
        reach,
        take_append_right (length buf + (s - (p + length buf))) (take p xs)
            (buf ++ drop (p + length buf) xs),
        take_append_right (s - (p + length buf)) buf (drop (p + length buf) xs),
        take-take p s xs hp,
        drop-take (p + length buf) s xs,
      )
      refl
  where
    reach :
        p + length buf + (s - (p + length buf))
        ≡ length (take p xs) + (length buf + (s - (p + length buf)))
    reach = omega (arith, length-take p xs)
