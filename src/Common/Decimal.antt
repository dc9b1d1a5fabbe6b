-- ===== src/Common/Decimal.antt =====
-- `std::to_string` of an `int`, and why it tells numbers apart.
use Prim.Native.Nat.{ℕ, zero, suc, ◌+◌, ◌-◌, ◌*◌, ◌/◌, ◌%◌, ◌≤◌, ◌<◌}
use mathlib.Core.Path.{◌≡◌, refl, sym, ap, ◌∙◌}
use mathlib.Core.Logic.{◌≢◌, inl, inr}
use mathlib.Core.List.{tail-eq_of_cons-eq, [], ◌∷◌, ◌++◌}
use native.Mathlib.Omega.{arith}
use fpga_runtime.Common.Tests.{ltb, if◌then◌else◌, Bool-cases}
use fpga_runtime.Common.Lists.{All, All-append}
use fpga_runtime.Common.Codes.{Text}
use fpga_runtime.Common.Int.{ℤ, pos, negsuc}

-- The digits of a number below 10 ^ fuel.
digits : ℕ → ℕ → Text
digits zero n = []
digits (suc fuel) n =
    let front = digits fuel (n / 10) in
    if ltb n 10 then (48 + n) ∷ [] else front ++ (48 + n % 10) ∷ []

unfoldable pub to_string : ℤ → Text
unfolding digits
to_string (pos n) = digits (suc n) n
to_string (negsuc n) = b'-' ∷ digits (suc (suc n)) (suc n)

-- The number that digits stand for.
value : ℕ → Text → ℕ
value acc [] = acc
value acc (c ∷ s) = value (acc * 10 + (c - 48)) s

value-append : (acc : ℕ) (s t : Text) → value acc (s ++ t) ≡ value (value acc s) t
unfolding value
value-append acc [] t = refl
value-append acc (c ∷ s) t = value-append (acc * 10 + (c - 48)) s t

value-digits : (fuel n : ℕ) → n < fuel → value 0 (digits fuel n) ≡ n
unfolding value digits
value-digits zero n h = absurd (omega arith)
value-digits (suc fuel) n h = elim (Bool-cases (ltb n 10)) [
  | inl small ↦ rw small (omega arith)
  | inr large ↦
      rw
        (
          large,
          value-append 0 (digits fuel (n / 10)) ((48 + n % 10) ∷ []),
          value-digits fuel (n / 10) (ground arith),
        )
        (omega arith)
]

-- A byte of a decimal number: a digit or the sign.
abbrev pub IsDecimal : ℕ → Type 0
IsDecimal c = (45 ≤ c) × (c ≤ 57) × (c ≢ 46)

digits-All : (fuel n : ℕ) → All (λ c. (48 ≤ c) × (c ≤ 57)) (digits fuel n)
unfolding digits
digits-All zero n = tt
digits-All (suc fuel) n = elim (Bool-cases (ltb n 10)) [
  | inl small ↦ rw small ((ground arith, ground arith), tt)
  | inr large ↦ rw large (
      All-append (λ c. (48 ≤ c) × (c ≤ 57)) (digits fuel (n / 10)) ((48 + n % 10) ∷ [])
        (digits-All fuel (n / 10)) ((omega arith, omega arith), tt))
]

digits-IsDecimal : (s : Text) → All (λ c. (48 ≤ c) × (c ≤ 57)) s → All IsDecimal s
digits-IsDecimal [] h = tt
digits-IsDecimal (c ∷ s) h = ((omega arith, omega arith, omega arith), digits-IsDecimal s h.1)

pub to_string-IsDecimal : (i : ℤ) → All IsDecimal (to_string i)
unfolding to_string
to_string-IsDecimal (pos n) = digits-IsDecimal (digits (suc n) n) (digits-All (suc n) n)
to_string-IsDecimal (negsuc n) =
    ((omega arith, omega arith, omega arith), digits-IsDecimal _ (digits-All (suc (suc n)) (suc n)))

minus-ne-digits : (s t : Text) → All (λ c. (48 ≤ c) × (c ≤ 57)) s → b'-' ∷ t ≡ s → ⊥
minus-ne-digits [] t h e = cc
minus-ne-digits (c ∷ s) t h e = ground arith

-- Two numbers with the same text are the same.
pub to_string_injective : (i j : ℤ) → to_string i ≡ to_string j → i ≡ j
unfolding to_string
to_string_injective (pos m) (pos n) e = ap pos (
    sym (value-digits (suc m) m (omega arith))
    ∙ ap (value 0) e
    ∙ value-digits (suc n) n (omega arith))
to_string_injective (pos m) (negsuc n) e =
    absurd (minus-ne-digits (digits (suc m) m) _ (digits-All (suc m) m) (sym e))
to_string_injective (negsuc m) (pos n) e =
    absurd (minus-ne-digits (digits (suc n) n) _ (digits-All (suc n) n) e)
to_string_injective (negsuc m) (negsuc n) e =
    let same : suc m ≡ suc n =
      sym (value-digits (suc (suc m)) (suc m) (omega arith))
      ∙ ap (value 0) (tail-eq_of_cons-eq e)
      ∙ value-digits (suc (suc n)) (suc n) (omega arith) in
    ap negsuc (omega arith)
