-- ===== src/OpenclDevice/Measures.antt =====
-- The times and the byte counts of an OpenCL device, with a library that turns nothing down.
pub mod Safety
pub mod Times
pub mod Bytes
use fpga_runtime.Common.{
  ◌≡◌, Bool, true, false, ◌||◌, Bool-cases, inl, inr, List, [], ◌∷◌, All, arith, ap, if◌then◌else◌,
}
use fpga_runtime.Common.Int.{ℤ, ◌≤ℤ◌, ltb_ℤ, int_eq, eq_of_parts}
use fpga_runtime.Common.Eq.{int_Eq}
use fpga_runtime.Containers.Sets.{contains}

-- An element of the list, and at least, or at most, all of them.
abbrev pub IsGreatest : ℤ → List ℤ → Type 0
IsGreatest x xs = (contains x xs ≡ true) × All (λ y. y ≤ℤ x) xs

abbrev pub IsLeast : ℤ → List ℤ → Type 0
IsLeast x xs = (contains x xs ≡ true) × All (λ y. x ≤ℤ y) xs

-- `std::max(a, b)` and `std::min(a, b)`
abbrev pub max_ℤ : ℤ → ℤ → ℤ
max_ℤ a b = if ltb_ℤ a b then b else a

abbrev pub min_ℤ : ℤ → ℤ → ℤ
min_ℤ a b = if ltb_ℤ b a then b else a

abbrev pub greatest_from : ℤ → List ℤ → ℤ
greatest_from best [] = best
greatest_from best (x ∷ xs) = greatest_from (max_ℤ best x) xs

abbrev pub least_from : ℤ → List ℤ → ℤ
least_from best [] = best
least_from best (x ∷ xs) = least_from (min_ℤ best x) xs

trans_ℤ : (a b c : ℤ) → a ≤ℤ b → b ≤ℤ c → a ≤ℤ c
trans_ℤ a b c h k = omega arith

-- What is one of two values is the first or the second.
choice :
    (b : Bool) (old new g : ℤ) (rest : Bool)
    → (int_eq g (if b then new else old) || rest) ≡ true
    → (int_eq g old || (int_eq g new || rest)) ≡ true
choice true old new g rest h = ground arith
choice false old new g rest h = ground arith

max_ℤ-bounds : (a b : ℤ) → (a ≤ℤ max_ℤ a b) × (b ≤ℤ max_ℤ a b)
max_ℤ-bounds a b = ground arith

min_ℤ-bounds : (a b : ℤ) → (min_ℤ a b ≤ℤ a) × (min_ℤ a b ≤ℤ b)
min_ℤ-bounds a b = ground arith

max_ℤ-eq : (a b : ℤ) → a ≤ℤ b → max_ℤ a b ≡ b
max_ℤ-eq a b h = elim (Bool-cases (ltb_ℤ a b)) [
  | inl e ↦ rw e
  | inr e ↦ rw e (eq_of_parts a b (ground arith))
]

min_ℤ-eq : (a b : ℤ) → b ≤ℤ a → min_ℤ a b ≡ b
min_ℤ-eq a b h = elim (Bool-cases (ltb_ℤ b a)) [
  | inl e ↦ rw e
  | inr e ↦ rw e (eq_of_parts a b (ground arith))
]

greatest_from-bounds :
    (best : ℤ) (xs : List ℤ)
    → (best ≤ℤ greatest_from best xs) × All (λ y. y ≤ℤ greatest_from best xs) xs
greatest_from-bounds best [] = (omega arith, tt)
greatest_from-bounds best (x ∷ xs) =
    let (l, h) = greatest_from-bounds (max_ℤ best x) xs in
    let (p, q) = max_ℤ-bounds best x in
    (trans_ℤ best (max_ℤ best x) _ p l, (trans_ℤ x (max_ℤ best x) _ q l, h))

least_from-bounds :
    (best : ℤ) (xs : List ℤ) → (least_from best xs ≤ℤ best) × All (λ y. least_from best xs ≤ℤ y) xs
least_from-bounds best [] = (omega arith, tt)
least_from-bounds best (x ∷ xs) =
    let (l, h) = least_from-bounds (min_ℤ best x) xs in
    let (p, q) = min_ℤ-bounds best x in
    (trans_ℤ _ (min_ℤ best x) best l p, (trans_ℤ _ (min_ℤ best x) x l q, h))

greatest_from-contains :
    (best : ℤ) (xs : List ℤ) → contains (greatest_from best xs) (best ∷ xs) ≡ true
unfolding contains
greatest_from-contains best [] = ground arith
greatest_from-contains best (x ∷ xs) =
    let h = greatest_from-contains (max_ℤ best x) xs in
    choice (ltb_ℤ best x) best x (greatest_from (max_ℤ best x) xs) _ h

least_from-contains : (best : ℤ) (xs : List ℤ) → contains (least_from best xs) (best ∷ xs) ≡ true
unfolding contains
least_from-contains best [] = ground arith
least_from-contains best (x ∷ xs) =
    let h = least_from-contains (min_ℤ best x) xs in
    choice (ltb_ℤ x best) best x (least_from (min_ℤ best x) xs) _ h

-- A bound of the first element does not count.
pub greatest_from-above :
    (a x : ℤ) (xs : List ℤ) → a ≤ℤ x → greatest_from a (x ∷ xs) ≡ greatest_from x xs
greatest_from-above a x xs h = ap (λ z. greatest_from z xs) (max_ℤ-eq a x h)

pub least_from-below : (a x : ℤ) (xs : List ℤ) → x ≤ℤ a → least_from a (x ∷ xs) ≡ least_from x xs
least_from-below a x xs h = ap (λ z. least_from z xs) (min_ℤ-eq a x h)
