-- ===== src/Containers/Sort.antt =====
-- `std::sort` by an `int` key. The library's algorithm is not fixed, so this is some sort; where the
-- keys differ there is only one result.
use mathlib.Core.List.{Perm}
use mathlib.Core.List.Perm
use mathlib.Core.List.{Mem, mem-cons, mem-cons_self, not-mem-nil}
use mathlib.Core.Logic.Or
use mathlib.Core.Path.{◌≡◌, subst, sym, ap₂}
use native.Mathlib.Bridge.{le_prop}
use fpga_runtime.Common.{List, [], ◌∷◌, All, All-map, arith, if◌then◌else◌, Bool-cases, inl, inr}
use fpga_runtime.Common.Int.{ℤ, ◌≤ℤ◌, ltb_ℤ, ◌<ℤ◌}

module _ {A : Type 0} (key : A → ℤ) where
  unfoldable pub place : A → List A → List A
  place x [] = x ∷ []
  place x (y ∷ ys) = if ltb_ℤ (key y) (key x) then y ∷ place x ys else x ∷ y ∷ ys

  unfoldable pub sort_by : List A → List A
  unfolding place
  sort_by [] = []
  sort_by (x ∷ xs) = place x (sort_by xs)

  abbrev pub IsSorted : List A → Type 0
  IsSorted [] = Unit {0}
  IsSorted (x ∷ xs) = All (λ y. key x ≤ℤ key y) xs × IsSorted xs

  place-perm : (x : A) (ys : List A) → Perm (place x ys) (x ∷ ys)
  unfolding place
  place-perm x [] = Perm.rfl
  place-perm x (y ∷ ys) = elim (Bool-cases (ltb_ℤ (key y) (key x))) [
    | inl e ↦ rw e (Perm.trans (Perm.cons y (place-perm x ys)) (Perm.swap x y ys))
    | inr e ↦ rw e Perm.rfl
  ]

  pub sort_by-perm : (xs : List A) → Perm (sort_by xs) xs
  unfolding sort_by
  sort_by-perm [] = Perm.rfl
  sort_by-perm (x ∷ xs) = Perm.trans (place-perm x (sort_by xs)) (Perm.cons x (sort_by-perm xs))

  place-All : (P : A → Type 0) (x : A) (ys : List A) → P x → All P ys → All P (place x ys)
  unfolding place
  place-All P x [] h hs = (h, tt)
  place-All P x (y ∷ ys) h hs = elim (Bool-cases (ltb_ℤ (key y) (key x))) [
    | inl e ↦ rw e (hs.0, place-All P x ys h hs.1)
    | inr e ↦ rw e (h, hs)
  ]

  place-IsSorted : (x : A) (ys : List A) → IsSorted ys → IsSorted (place x ys)
  unfolding place
  place-IsSorted x [] s = (tt, tt)
  place-IsSorted x (y ∷ ys) s = elim (Bool-cases (ltb_ℤ (key y) (key x))) [
    | inl e ↦
        rw e (place-All (λ z. key y ≤ℤ key z) x ys (ground arith) s.0, place-IsSorted x ys s.1)
    | inr e ↦
        let low : key x ≤ℤ key y = ground arith in
        rw e (
          (low, All-map (λ z. key y ≤ℤ key z) (λ z. key x ≤ℤ key z) ys (λ z h. omega arith) s.0),
          s,
        )
  ]

  pub sort_by-IsSorted : (xs : List A) → IsSorted (sort_by xs)
  unfolding sort_by
  sort_by-IsSorted [] = tt
  sort_by-IsSorted (x ∷ xs) = place-IsSorted x (sort_by xs) (sort_by-IsSorted xs)

module _ {A : Type 0} (is_set : IsSet A) (key : A → ℤ) where
  abbrev pub IsStrict : List A → Type 0
  IsStrict [] = Unit {0}
  IsStrict (x ∷ xs) = All (λ y. key x <ℤ key y) xs × IsStrict xs

  All-mem :
      (P : A → Type 0)
      → ((x : A) → IsProp (P x))
      → {x : A} (xs : List A) → All P xs
      → Mem x xs
      → P x
  All-mem P prop [] h m = absurd (not-mem-nil m)
  All-mem P prop {x} (y ∷ ys) h m =
      Or.elim (prop x) (mem-cons.0 m) (λ e. subst P (sym e) h.0) (All-mem P prop ys h.1)

  heads_eq :
      (a b : A) (l r : List A)
      → All (λ y. key a ≤ℤ key y) l
      → All (λ y. key b <ℤ key y) r
      → Perm (a ∷ l) (b ∷ r)
      → a ≡ b
  heads_eq a b l r low strict p =
      let above : key a ≤ℤ key b =
        All-mem (λ y. key a ≤ℤ key y) (λ y. le_prop) (a ∷ l) (omega arith, low)
          ((Perm.mem_iff p).1 mem-cons_self) in
      Or.elim (is_set a b) (mem-cons.0 ((Perm.mem_iff p).0 mem-cons_self)) (λ e. e)
        λ m.
          let below : key b <ℤ key a = All-mem (λ y. key b <ℤ key y) (λ y. le_prop) r strict m in
          absurd (omega arith)

  IsSorted-eq_of_perm : (l r : List A) → IsSorted key l → IsStrict r → Perm l r → l ≡ r
  IsSorted-eq_of_perm [] r s t p = Perm.nil-eq p
  IsSorted-eq_of_perm (a ∷ l) [] s t p = Perm.eq-nil p
  IsSorted-eq_of_perm (a ∷ l) (b ∷ r) s t p =
      let heads = heads_eq a b l r s.0 t.0 p in
      let tails = Perm.cons_inv (Perm.trans p (Perm.symm (Perm.cons' heads Perm.rfl))) in
      ap₂ ◌∷◌ heads (IsSorted-eq_of_perm l r s.1 t.1 tails)

  -- Whatever the order of the elements, sorting finds the strictly ascending one.
  pub sort_by_unique : (l r : List A) → IsStrict r → Perm l r → sort_by key l ≡ r
  sort_by_unique l r t p =
      IsSorted-eq_of_perm (sort_by key l) r (sort_by-IsSorted key l) t
        (Perm.trans (sort_by-perm key l) p)
