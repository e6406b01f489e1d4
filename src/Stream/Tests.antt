-- ===== src/Stream/Tests.antt =====
-- A run of the loops of yuyu/stream.cc.
use yuyu.Common.Int.{ℤ, pos, signed}
use yuyu.Common.{
  ℕ, zero, suc, refl, List, [], ◌∷◌, arith, some, ◌≡◌, ◌++◌, ◌<◌, ◌%◌, ◌^◌, sym, append-nil,
}
use yuyu.Stream.{Reader, Writer, size, write_fix_size}
use yuyu.Stream.Writing.{Accepts, write_fix_size-Went}
use yuyu.Stream.Whole.{Obeys}

-- A stream that gives a byte at a time, until it has no more.
abbrev trickle : Reader (List ℕ)
trickle zero s = ((pos 0, []), s)
trickle (suc k) [] = ((pos 0, []), [])
trickle (suc k) (x ∷ xs) = ((pos 1, x ∷ []), xs)

trickle-Obeys : Obeys trickle
trickle-Obeys zero s = (omega arith, λ h. refl)
trickle-Obeys (suc k) [] = (omega arith, λ h. refl)
trickle-Obeys (suc k) (x ∷ xs) = (omega arith, λ h. refl)

-- A stream that takes two bytes at most.
abbrev sip : Writer (List ℕ)
sip [] s = (pos 0, s)
sip (x ∷ []) s = (pos 1, s ++ (x ∷ []))
sip (x ∷ (y ∷ rest)) s = (pos 2, s ++ (x ∷ (y ∷ [])))

sip-Accepts : Accepts sip (λ s. s)
sip-Accepts [] s = (omega arith, sym (append-nil s))
sip-Accepts (x ∷ []) s = (omega arith, refl)
sip-Accepts (x ∷ (y ∷ rest)) s = (omega arith, refl)

write_fix_size_example :
    (result : ℤ) × (moved : List ℕ) × (left : List ℕ) × (s' : List ℕ) × (write_fix_size sip
        (1 ∷ 2 ∷ 3 ∷ [])
        (9 ∷ [])
      ≡ some (result, (moved, s')))
    × (1 ∷ 2 ∷ 3 ∷ [] ≡ moved ++ left)
    × (s' ≡ (9 ∷ []) ++ moved)
    × (0 < size result → (left ≡ []) × (result ≡ signed 32 (3 % 2 ^ 32)))
write_fix_size_example = write_fix_size-Went sip (λ s. s) (1 ∷ 2 ∷ 3 ∷ []) (9 ∷ []) sip-Accepts
