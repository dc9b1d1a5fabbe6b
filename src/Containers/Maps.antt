-- ===== src/Containers/Maps.antt =====
-- `std::unordered_map`: a list of entries, of which the first with a key counts.
use fpga_runtime.Common.{
  ◌≡◌, refl, Bool, true, false, ◌||◌, Option, none, some, List, [], ◌∷◌, arith, if◌then◌else◌,
}
use fpga_runtime.Common.Eq.{Eq, ◌==◌}

-- The first value that is there.
abbrev pub or_else {ℓ} : {A : Type ℓ} → Option A → Option A → Option A
or_else none b = b
or_else (some a) b = some a

abbrev pub Map {ℓ κ} : Type ℓ → Type κ → Type (ℓ ⊔ κ)
Map K V = List (K × V)

module _ {ℓ κ} {K : Type ℓ} {V : Type κ} ⦃e : Eq K⦄ where
  -- `m.find(k)`; `m.at(k)` throws where this is `none`.
  unfoldable pub lookup : K → Map K V → Option V
  lookup k [] = none
  lookup k ((j, v) ∷ m) = if k == j then some v else lookup k m

  unfoldable pub has_key : K → Map K V → Bool
  has_key k [] = false
  has_key k ((j, v) ∷ m) = k == j || has_key k m

  -- `m[k] = v`
  unfoldable pub assign : K → V → Map K V → Map K V
  assign k v [] = (k, v) ∷ []
  assign k v ((j, w) ∷ m) = if k == j then (j, v) ∷ m else (j, w) ∷ assign k v m

  -- `m.insert({k, v})`, which leaves an entry that is there alone
  unfoldable pub insert : K → V → Map K V → Map K V
  insert k v [] = (k, v) ∷ []
  insert k v ((j, w) ∷ m) = if k == j then (j, w) ∷ m else (j, w) ∷ insert k v m

  pub lookup-assign_self : (k : K) (v : V) (m : Map K V) → lookup k (assign k v m) ≡ some v
  unfolding lookup assign
  lookup-assign_self k v [] = ground (arith, e.agrees_iff k k)
  lookup-assign_self k v ((j, w) ∷ m) = ground (arith, e.agrees_iff k j, lookup-assign_self k v m)

  pub lookup-assign :
      (k i : K) (v : V) (m : Map K V)
      → lookup i (assign k v m) ≡ (if i == k then some v else lookup i m)
  unfolding lookup assign
  lookup-assign k i v [] = refl
  lookup-assign k i v ((j, w) ∷ m) =
      ground (arith, e.agrees_iff k j, e.agrees_iff i j, e.agrees_iff i k, lookup-assign k i v m)

  pub has_key-assign :
      (k i : K) (v : V) (m : Map K V) → has_key i (assign k v m) ≡ (i == k || has_key i m)
  unfolding has_key assign
  has_key-assign k i v [] = refl
  has_key-assign k i v ((j, w) ∷ m) =
      ground (arith, e.agrees_iff k j, e.agrees_iff i j, e.agrees_iff i k, has_key-assign k i v m)

  pub has_key-insert :
      (k i : K) (v : V) (m : Map K V) → has_key i (insert k v m) ≡ (i == k || has_key i m)
  unfolding has_key insert
  has_key-insert k i v [] = refl
  has_key-insert k i v ((j, w) ∷ m) =
      ground (arith, e.agrees_iff k j, e.agrees_iff i j, e.agrees_iff i k, has_key-insert k i v m)

  pub lookup-insert_old : (k : K) (v w : V) (m : Map K V) → lookup k m ≡ some w → insert k v m ≡ m
  unfolding lookup insert
  lookup-insert_old k v w [] h = ground arith
  lookup-insert_old k v w ((j, x) ∷ m) h = ground (arith, lookup-insert_old k v w m)

  pub lookup-insert_new :
      (k : K) (v : V) (m : Map K V) → lookup k m ≡ none → lookup k (insert k v m) ≡ some v
  unfolding lookup insert
  lookup-insert_new k v [] h = ground (arith, e.agrees_iff k k)
  lookup-insert_new k v ((j, x) ∷ m) h = ground (arith, lookup-insert_new k v m)

  -- An insertion matters only to a key that is not there.
  pub lookup-insert :
      (k i : K) (v : V) (m : Map K V)
      → lookup i (insert k v m) ≡ or_else (lookup i m) (if i == k then some v else none)
  unfolding lookup insert
  lookup-insert k i v [] = refl
  lookup-insert k i v ((j, w) ∷ m) =
      ground (arith, e.agrees_iff k j, e.agrees_iff i j, e.agrees_iff i k, lookup-insert k i v m)

  -- A key that is there has an entry.
  pub lookup_of_has_key :
      (k : K) (m : Map K V) → has_key k m ≡ true → (v : V) × (lookup k m ≡ some v)
  unfolding lookup has_key
  lookup_of_has_key k [] h = absurd (ground arith)
  lookup_of_has_key k ((j, v) ∷ m) h = found (k == j) (lookup_of_has_key k m) h
    where
      found :
          (b : Bool)
          → (has_key k m ≡ true → (w : V) × (lookup k m ≡ some w))
          → (b || has_key k m) ≡ true
          → (w : V) × ((if b then some v else lookup k m) ≡ some w)
      found true ih h = (v, refl)
      found false ih h = ih h

  pub has_key-assign_self : (k : K) (v : V) (m : Map K V) → has_key k (assign k v m) ≡ true
  has_key-assign_self k v m =
      let self : (k == k) ≡ true = (e.agrees_iff k k).1 refl in rw (has_key-assign k k v m, self)
