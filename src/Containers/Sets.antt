-- ===== src/Containers/Sets.antt =====
-- `std::unordered_set`: a list without repetitions.
use fpga_runtime.Common.{
  ℕ, ◌≡◌, refl, Bool, false, ◌||◌, not, ◌&&◌, List, [], ◌∷◌, arith, if◌then◌else◌, true,
}
use fpga_runtime.Common.Eq.{Eq, ◌==◌}

module _ {ℓ} {K : Type ℓ} ⦃e : Eq K⦄ where
  unfoldable pub contains : K → List K → Bool
  contains k [] = false
  contains k (j ∷ s) = k == j || contains k s

  -- `s.insert(k)`
  unfoldable pub insert : K → List K → List K
  insert k [] = k ∷ []
  insert k (j ∷ s) = if k == j then j ∷ s else j ∷ insert k s

  -- `s.erase(k)`: what is left, and the number of elements taken out
  unfoldable pub erase : K → List K → List K
  erase k [] = []
  erase k (j ∷ s) = if k == j then s else j ∷ erase k s

  unfoldable pub erase_count : K → List K → ℕ
  erase_count k [] = 0
  erase_count k (j ∷ s) = if k == j then 1 else erase_count k s

  abbrev pub IsDistinct : List K → Type 0
  IsDistinct [] = Unit {0}
  IsDistinct (j ∷ s) = (contains j s ≡ false) × IsDistinct s

  pub contains-insert : (k i : K) (s : List K) → contains i (insert k s) ≡ (i == k || contains i s)
  unfolding contains insert
  contains-insert k i [] = refl
  contains-insert k i (j ∷ s) =
      ground (arith, e.agrees_iff k j, e.agrees_iff i j, e.agrees_iff i k, contains-insert k i s)

  pub insert-IsDistinct : (k : K) (s : List K) → IsDistinct s → IsDistinct (insert k s)
  unfolding insert contains
  insert-IsDistinct k [] d = (refl, tt)
  insert-IsDistinct k (j ∷ s) d =
      ground (
        arith,
        insert-IsDistinct k s d.1,
        contains-insert k j s,
        e.agrees_iff k j,
        e.agrees_iff j k,
      )

  pub contains-erase :
      (k i : K) (s : List K)
      → IsDistinct s
      → contains i (erase k s) ≡ (not (i == k) && contains i s)
  unfolding contains erase
  contains-erase k i [] d = ground arith
  contains-erase k i (j ∷ s) d =
      ground (arith, e.agrees_iff k j, e.agrees_iff i j, e.agrees_iff i k, contains-erase k i s d.1)

  pub erase-IsDistinct : (k : K) (s : List K) → IsDistinct s → IsDistinct (erase k s)
  unfolding erase
  erase-IsDistinct k [] d = tt
  erase-IsDistinct k (j ∷ s) d =
      ground (arith, erase-IsDistinct k s d.1, contains-erase k j s d.1, e.agrees_iff k j)

  -- `erase` takes out one element where the key is there, and none where it is not.
  pub erase_count_lem : (k : K) (s : List K) → erase_count k s ≡ (if contains k s then 1 else 0)
  unfolding contains erase_count
  erase_count_lem k [] = refl
  erase_count_lem k (j ∷ s) = ground (arith, erase_count_lem k s)

  pub erase_absent : (k : K) (s : List K) → contains k s ≡ false → erase k s ≡ s
  unfolding contains erase
  erase_absent k [] h = refl
  erase_absent k (j ∷ s) h = ground (arith, erase_absent k s)

  pub contains-head : (k : K) (s : List K) → contains k (k ∷ s) ≡ true
  unfolding contains
  contains-head k s = ground (arith, e.agrees_iff k k)

  pub contains-tail : (k j : K) (s : List K) → contains k s ≡ true → contains k (j ∷ s) ≡ true
  unfolding contains
  contains-tail k j s h = ground arith
