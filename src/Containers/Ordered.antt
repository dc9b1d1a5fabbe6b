-- ===== src/Containers/Ordered.antt =====
-- `std::map<int, V>`: a list of entries with strictly ascending keys.
pub mod Assignments
use fpga_runtime.Common.{
  ℕ, zero, suc, ◌≡◌, refl, ◌≤◌, inl, inr, Bool-cases, Option, none, some, List, [], ◌∷◌, All,
  get_elem?, arith, if◌then◌else◌, length, false, true, All-map, ◌++◌, Option-cases, All-append,
}
use mathlib.Core.List.{append-nil, append_assoc}
use fpga_runtime.Containers.Maps.{or_else}
use fpga_runtime.Common.Int.{ℤ, ◌≤ℤ◌, ◌<ℤ◌, ltb_ℤ, int_eq, int_eq_iff}

abbrev pub OrderedMap {ℓ} : Type ℓ → Type ℓ
OrderedMap V = List (ℤ × V)

abbrev pub IsAscending {ℓ} : {V : Type ℓ} → OrderedMap V → Type 0
IsAscending [] = Unit {0}
IsAscending ((k, v) ∷ m) = All (λ e. k <ℤ e.0) m × IsAscending m

abbrev pub KeysLe {ℓ} : {V : Type ℓ} → ℤ → OrderedMap V → Type 0
KeysLe k [] = Unit {0}
KeysLe k ((j, w) ∷ m) = (j ≤ℤ k) × KeysLe k m

module _ {ℓ} {V : Type ℓ} where
  -- `m[k] = v`
  unfoldable pub assign : ℤ → V → OrderedMap V → OrderedMap V
  assign k v [] = (k, v) ∷ []
  assign k v ((j, w) ∷ m) =
      if int_eq k j
      then (j, v) ∷ m
      else if ltb_ℤ k j
      then (k, v) ∷ (j, w) ∷ m
      else (j, w) ∷ assign k v m

  -- `m.upper_bound(i)`: the position of the first key above `i`, or the end.
  unfoldable pub upper_bound : ℤ → OrderedMap V → ℕ
  upper_bound i [] = 0
  upper_bound i ((k, v) ∷ m) = if ltb_ℤ i k then 0 else suc (upper_bound i m)

  -- `*std::prev(it)`; there is nothing before `begin()`.
  unfoldable pub at_prev : OrderedMap V → ℕ → Option (ℤ × V)
  at_prev m zero = none
  at_prev m (suc p) = get_elem? m p

  -- The last entry whose key is at most `i`.
  unfoldable pub last_le : ℤ → OrderedMap V → Option (ℤ × V)
  last_le i [] = none
  last_le i ((k, v) ∷ m) = if ltb_ℤ i k then none else or_else (last_le i m) (some (k, v))

  upper_bound-le-length : (i : ℤ) (m : OrderedMap V) → upper_bound i m ≤ length m
  unfolding upper_bound
  upper_bound-le-length i [] = omega arith
  upper_bound-le-length i ((k, v) ∷ m) = ground (arith, upper_bound-le-length i m)

module _ {V : Type 0} where
  at_prev-cons :
      (x : ℤ × V) (m : OrderedMap V) (p : ℕ)
      → p ≤ length m
      → at_prev (x ∷ m) (suc p) ≡ or_else (at_prev m p) (some x)
  unfolding at_prev
  at_prev-cons x m zero h = refl
  at_prev-cons x [] (suc p) h = absurd (omega arith)
  at_prev-cons x (y ∷ m) (suc zero) h = refl
  at_prev-cons x (y ∷ m) (suc (suc p)) h = ground (arith, at_prev-cons x m (suc p))

  pub at_prev-upper_bound : (i : ℤ) (m : OrderedMap V) → at_prev m (upper_bound i m) ≡ last_le i m
  unfolding upper_bound last_le
  at_prev-upper_bound i [] = unfold at_prev in refl
  at_prev-upper_bound i ((k, v) ∷ m) = elim (Bool-cases (ltb_ℤ i k)) [
    | inl below ↦ rw below (unfold at_prev in refl)
    | inr above ↦ rw (
      above,
      at_prev-cons (k, v) m (upper_bound i m) (upper_bound-le-length i m),
      at_prev-upper_bound i m,
    )
  ]

  pub last_le-below :
      (i k : ℤ) (v : V) (m : OrderedMap V) → ltb_ℤ i k ≡ true → last_le i ((k, v) ∷ m) ≡ none
  unfolding last_le
  last_le-below i k v m h = rw h

  pub last_le-cons :
      (i k : ℤ) (v : V) (m : OrderedMap V)
      → ltb_ℤ i k ≡ false
      → last_le i ((k, v) ∷ m) ≡ or_else (last_le i m) (some (k, v))
  unfolding last_le
  last_le-cons i k v m h = rw h

  pub assign-behind :
      (k j : ℤ) (v w : V) (m : OrderedMap V)
      → j <ℤ k
      → assign k v ((j, w) ∷ m) ≡ (j, w) ∷ assign k v m
  unfolding assign
  assign-behind k j v w m h =
      let differ : int_eq k j ≡ false = ground arith in
      let behind : ltb_ℤ k j ≡ false = ground arith in rw (differ, behind)

  last_le-assign_behind :
      (i k j : ℤ) (v w : V) (m : OrderedMap V)
      → j <ℤ k
      → last_le i (assign k v m) ≡ (if ltb_ℤ i k then last_le i m else some (k, v))
      → last_le i (assign k v ((j, w) ∷ m))
        ≡ (if ltb_ℤ i k then last_le i ((j, w) ∷ m) else some (k, v))
  last_le-assign_behind i k j v w m h ih = elim (Bool-cases (ltb_ℤ i j)) [
    | inl below ↦
        let lower : ltb_ℤ i k ≡ true = ground arith in
        rw (
          assign-behind k j v w m h,
          last_le-below i j w (assign k v m) below,
          lower,
          last_le-below i j w m below,
        )
    | inr above ↦
        rw
          (
            assign-behind k j v w m h,
            last_le-cons i j w (assign k v m) above,
            ih,
            last_le-cons i j w m above,
          )
          (elim (Bool-cases (ltb_ℤ i k)) [ inl e ↦ rw e | inr e ↦ rw e ])
  ]

  -- A key that is at least every key of the map goes to its end, or replaces the last value.
  pub last_le-assign :
      (i k : ℤ) (v : V) (m : OrderedMap V)
      → IsAscending m
      → KeysLe k m
      → last_le i (assign k v m) ≡ (if ltb_ℤ i k then last_le i m else some (k, v))
  last_le-assign i k v [] s b = unfold last_le assign in refl
  last_le-assign i k v ((j, w) ∷ []) s b = elim (Bool-cases (int_eq k j)) [
    | inl same ↦ unfold last_le assign in ground (arith, int_eq_iff k j)
    | inr differ ↦ last_le-assign_behind i k j v w [] (ground arith) (unfold last_le assign in refl)
  ]
  last_le-assign i k v ((j, w) ∷ (l, x) ∷ m) s b =
      last_le-assign_behind i k j v w ((l, x) ∷ m) (omega arith)
        (last_le-assign i k v ((l, x) ∷ m) s.1 b.1)

  pub assign-KeysLe : (k : ℤ) (v : V) (m : OrderedMap V) → KeysLe k m → KeysLe k (assign k v m)
  unfolding assign
  assign-KeysLe k v [] b = (ground arith, tt)
  assign-KeysLe k v ((j, w) ∷ m) b = ground (arith, assign-KeysLe k v m b.1)

  pub KeysLe-mono : (j k : ℤ) (m : OrderedMap V) → j ≤ℤ k → KeysLe j m → KeysLe k m
  KeysLe-mono j k [] h b = tt
  KeysLe-mono j k ((i, w) ∷ m) h b = (omega arith, KeysLe-mono j k m h b.1)

module _ {ℓ} {V : Type ℓ} where
  -- The assignments of a loop, in turn.
  unfoldable pub assign_all : List (ℤ × V) → OrderedMap V → OrderedMap V
  assign_all [] m = m
  assign_all ((k, v) ∷ es) m = assign_all es (assign k v m)
