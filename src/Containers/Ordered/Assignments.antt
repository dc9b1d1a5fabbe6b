-- ===== src/Containers/Ordered/Assignments.antt =====
-- What a row of assignments does to an ordered map.
use fpga_runtime.Containers.Maps.{or_else}
use mathlib.Core.List.{append-nil, append_assoc}
use fpga_runtime.Common.{
  ◌≡◌, refl, inl, inr, Bool-cases, none, [], ◌∷◌, All, arith, true, All-map, ◌++◌, Option-cases,
  All-append,
}
use fpga_runtime.Common.Int.{ℤ, ◌≤ℤ◌, ◌<ℤ◌, ltb_ℤ, int_eq}
use fpga_runtime.Containers.Ordered.{
  OrderedMap, IsAscending, KeysLe, assign, assign_all, last_le, last_le-below, last_le-cons,
  last_le-assign, assign-behind, assign-KeysLe, KeysLe-mono,
}

module _ {V : Type 0} where
  All-assign :
      (P : ℤ × V → Type 0) (k : ℤ) (v : V) (m : OrderedMap V)
      → ((w x : V) (j : ℤ) → P (j, w) → P (j, x))
      → P (k, v)
      → All P m
      → All P (assign k v m)
  unfolding assign
  All-assign P k v [] any h hs = (h, tt)
  All-assign P k v ((j, w) ∷ m) any h hs = elim (Bool-cases (int_eq k j)) [
    | inl same ↦ rw same (any w v j hs.0, hs.1)
    | inr differ ↦ rw differ (elim (Bool-cases (ltb_ℤ k j)) [
      | inl below ↦ rw below (h, hs)
      | inr above ↦ rw above (hs.0, All-assign P k v m any h hs.1)
    ])
  ]

  pub assign-IsAscending :
      (k : ℤ) (v : V) (m : OrderedMap V) → IsAscending m → IsAscending (assign k v m)
  unfolding assign
  assign-IsAscending k v [] s = (tt, tt)
  assign-IsAscending k v ((j, w) ∷ m) s = elim (Bool-cases (int_eq k j)) [
    | inl same ↦ rw same s
    | inr differ ↦ rw differ (elim (Bool-cases (ltb_ℤ k j)) [
      | inl below ↦
          let low : k <ℤ j = ground arith in
          rw below ((low, All-map (λ e. j <ℤ e.0) (λ e. k <ℤ e.0) m (λ e h. omega arith) s.0), s)
      | inr above ↦ rw above (
        All-assign (λ e. j <ℤ e.0) k v m (λ w x l h. h) (ground arith) s.0,
        assign-IsAscending k v m s.1,
      )
    ])
  ]

  -- A second assignment to a key takes the place of the first.
  pub assign-assign :
      (k : ℤ) (v w : V) (m : OrderedMap V) → assign k w (assign k v m) ≡ assign k w m
  unfolding assign
  assign-assign k v w [] = let same : int_eq k k ≡ true = ground arith in rw same
  assign-assign k v w ((j, x) ∷ m) = elim (Bool-cases (int_eq k j)) [
    | inl same ↦ rw (same, same)
    | inr differ ↦ rw differ (elim (Bool-cases (ltb_ℤ k j)) [
      | inl below ↦ let self : int_eq k k ≡ true = ground arith in rw (below, self)
      | inr above ↦ rw (above, differ, above, assign-assign k v w m)
    ])
  ]

  last_le-All : (i : ℤ) (m : OrderedMap V) → All (λ e. i <ℤ e.0) m → last_le i m ≡ none
  unfolding last_le
  last_le-All i [] h = refl
  last_le-All i ((k, v) ∷ m) h = let below : ltb_ℤ i k ≡ true = ground arith in rw below

  abbrev pub NonDecreasing : OrderedMap V → Type 0
  NonDecreasing [] = Unit {0}
  NonDecreasing ((k, v) ∷ es) = All (λ e. k ≤ℤ e.0) es × NonDecreasing es

  abbrev pub AllAbove : OrderedMap V → OrderedMap V → Type 0
  AllAbove m [] = Unit {0}
  AllAbove m ((k, v) ∷ es) = KeysLe k m

  head-AllAbove :
      (k : ℤ) (v : V) (es m : OrderedMap V)
      → All (λ e. k ≤ℤ e.0) es
      → KeysLe k m
      → AllAbove (assign k v m) es
  head-AllAbove k v [] m h b = tt
  head-AllAbove k v ((j, w) ∷ es) m h b = KeysLe-mono k j (assign k v m) h.0 (assign-KeysLe k v m b)

  -- After assignments to keys that never fall, starting at or above those of the map, the entry for `i`
  -- is the last assigned one whose key is at most `i`, and else the one of the old map.
  pub last_le-assign_all :
      (i : ℤ) (es m : OrderedMap V)
      → IsAscending m
      → AllAbove m es
      → NonDecreasing es
      → last_le i (assign_all es m) ≡ or_else (last_le i es) (last_le i m)
  unfolding assign_all
  last_le-assign_all i [] m s b n = unfold last_le in refl
  last_le-assign_all i ((k, v) ∷ es) m s b n =
      rw
        (
          last_le-assign_all i es (assign k v m) (assign-IsAscending k v m s)
              (head-AllAbove k v es m n.0 b) n.1,
          last_le-assign i k v m s b,
        )
        (elim (Bool-cases (ltb_ℤ i k)) [
          | inl below ↦
              let none_above : last_le i es ≡ none =
                last_le-All i es
                  (All-map (λ e. k ≤ℤ e.0) (λ e. i <ℤ e.0) es (λ e h. ground arith) n.0) in
              rw (below, none_above, last_le-below i k v es below)
          | inr above ↦
              rw (above, last_le-cons i k v es above)
                (elim (Option-cases (last_le i es)) [ inl e ↦ rw e | inr (x, e) ↦ rw e ])
        ])

  -- Assignments to strictly ascending keys above those of the map go to its end, in order.
  assign-append :
      (k : ℤ) (v : V) (m : OrderedMap V) → All (λ e. e.0 <ℤ k) m → assign k v m ≡ m ++ (k, v) ∷ []
  assign-append k v [] h = unfold assign in refl
  assign-append k v ((j, w) ∷ m) h = rw (assign-behind k j v w m h.0, assign-append k v m h.1)

  below-append :
      (k : ℤ) (v : V) (m es : OrderedMap V)
      → All (λ e. k <ℤ e.0) es
      → All (λ e. All (λ f. f.0 <ℤ e.0) m) es
      → All (λ e. All (λ f. f.0 <ℤ e.0) (m ++ (k, v) ∷ [])) es
  below-append k v m [] h b = tt
  below-append k v m ((j, w) ∷ es) h b =
      (All-append (λ f. f.0 <ℤ j) m ((k, v) ∷ []) b.0 (h.0, tt), below-append k v m es h.1 b.1)

  pub assign_all-append :
      (es m : OrderedMap V)
      → IsAscending es
      → All (λ e. All (λ f. f.0 <ℤ e.0) m) es
      → assign_all es m ≡ m ++ es
  unfolding assign_all
  assign_all-append [] m s b = rw append-nil
  assign_all-append ((k, v) ∷ es) m s b =
      rw
        (
          assign-append k v m b.0,
          assign_all-append es (m ++ (k, v) ∷ []) s.1 (below-append k v m es s.0 b.1),
        )
        (append_assoc m ((k, v) ∷ []) es)

pub AllAbove-nil : {V : Type 0} (es : OrderedMap V) → AllAbove [] es
AllAbove-nil [] = tt
AllAbove-nil ((k, v) ∷ es) = tt
