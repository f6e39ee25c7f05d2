-- ===== src/Base/Decimal.antt =====
-- Rust's `Display` of an unsigned integer, with and without zero padding, and `str::parse`.
use Prim.Native.Nat.{ℕ, zero, suc, ◌+◌, ◌-◌, ◌*◌, ◌/◌, ◌%◌, ◌≤◌, ◌<◌}
use mathlib.Core.Path.{◌≡◌, refl, ap, sym, ◌∙◌}
use mathlib.Core.Logic.{inl, inr}
use mathlib.Core.Bool.{Bool, ◌&&◌}
use mathlib.Core.List.{[], ◌∷◌, ◌++◌}
use native.Mathlib.Omega.{arith}
use sealedge.Base.Tests.{ltb, leb, if◌then◌else◌, Bool-cases}
use sealedge.Base.Lists.{length, All, All-append, replicate}
use sealedge.Base.ByteStrings.{Text}

-- One digit a round; `suc n` rounds are enough for `n`.
decimal_loop : ℕ → ℕ → Text
decimal_loop zero n = []
decimal_loop (suc fuel) n =
    let rest = decimal_loop fuel (n / 10) in
    if ltb n 10 then (48 + n) ∷ [] else rest ++ (48 + n % 10) ∷ []

-- `format!("{}", n)`
unfoldable pub decimal : ℕ → Text
unfolding decimal_loop
decimal n = decimal_loop (suc n) n

-- `format!("{:05}", n)`
unfoldable pub padded : ℕ → Text
padded n = replicate (5 - length (decimal n)) 48 ++ decimal n

abbrev pub IsDigit : ℕ → Type 0
IsDigit c = (48 ≤ c) × (c ≤ 57)

unfoldable pub is_digit : ℕ → Bool
is_digit c = leb 48 c && leb c 57

-- The number that digits stand for, after those that `acc` holds.
unfoldable pub value : ℕ → Text → ℕ
value acc [] = acc
value acc (c ∷ rest) = value (acc * 10 + (c - 48)) rest

value-snoc : (acc c : ℕ) (t : Text) → value acc (t ++ c ∷ []) ≡ value acc t * 10 + (c - 48)
unfolding value
value-snoc acc c [] = refl
value-snoc acc c (x ∷ t) = value-snoc (acc * 10 + (x - 48)) c t

value-decimal_loop : (fuel n : ℕ) → n < fuel → value 0 (decimal_loop fuel n) ≡ n
unfolding decimal_loop
value-decimal_loop zero n h = absurd (omega arith)
value-decimal_loop (suc fuel) n h = elim (Bool-cases (ltb n 10)) [
  | inl small ↦ rw small (unfold value in omega arith)
  | inr big ↦ rw big (
      value-snoc 0 (48 + n % 10) (decimal_loop fuel (n / 10))
      ∙ ap (λ (k : ℕ). k * 10 + (48 + n % 10 - 48))
          (value-decimal_loop fuel (n / 10) (ground arith))
      ∙ omega arith)
]

-- The digits of a number read back as the number.
pub value-decimal : (n : ℕ) → value 0 (decimal n) ≡ n
unfolding decimal
value-decimal n = value-decimal_loop (suc n) n (omega arith)

pub decimal-injective : (n m : ℕ) → decimal n ≡ decimal m → n ≡ m
decimal-injective n m e = sym (value-decimal n) ∙ ap (value 0) e ∙ value-decimal m

decimal_loop-IsDigit : (fuel n : ℕ) → All IsDigit (decimal_loop fuel n)
unfolding decimal_loop
decimal_loop-IsDigit zero n = tt
decimal_loop-IsDigit (suc fuel) n = elim (Bool-cases (ltb n 10)) [
  | inl small ↦ rw small (ground arith)
  | inr big ↦ rw big (
      All-append IsDigit (decimal_loop fuel (n / 10)) ((48 + n % 10) ∷ [])
        (decimal_loop-IsDigit fuel (n / 10)) (omega arith))
]

pub decimal-IsDigit : (n : ℕ) → All IsDigit (decimal n)
unfolding decimal
decimal-IsDigit n = decimal_loop-IsDigit (suc n) n

value-zeros : (k : ℕ) (t : Text) → value 0 (replicate k 48 ++ t) ≡ value 0 t
unfolding value
value-zeros zero t = refl
value-zeros (suc k) t = value-zeros k t

-- Padding does not change the number.
pub value-padded : (n : ℕ) → value 0 (padded n) ≡ n
unfolding padded
value-padded n = value-zeros (5 - length (decimal n)) (decimal n) ∙ value-decimal n

pub padded-injective : (n m : ℕ) → padded n ≡ padded m → n ≡ m
padded-injective n m e = sym (value-padded n) ∙ ap (value 0) e ∙ value-padded m

-- Digits end at the first byte that is none: both the digits and what follows are determined.
pub digits_end :
    (a b : Text) (c d : ℕ) (r s : Text)
    → All IsDigit a
    → All IsDigit b
    → (IsDigit c → ⊥)
    → (IsDigit d → ⊥)
    → a ++ c ∷ r ≡ b ++ d ∷ s
    → (a ≡ b) × (c ∷ r ≡ d ∷ s)
digits_end [] [] c d r s ha hb nc nd e = (refl, e)
digits_end [] (y ∷ b) c d r s ha hb nc nd e = absurd (nc (ground arith))
digits_end (x ∷ a) [] c d r s ha hb nc nd e = absurd (nd (ground arith))
digits_end (x ∷ a) (y ∷ b) c d r s ha hb nc nd e =
    let ih : (a ≡ b) × (c ∷ r ≡ d ∷ s) = digits_end a b c d r s ha.1 hb.1 nc nd (cc) in
    (cc (ih.0), ih.1)
