-- ===== src/Instance/Simulation/Arguments.antt =====
-- The arguments of `Instance::Invoke` on the simulator: its buffers and sets, by the arguments' numbers.
use fpga_runtime.Common.{
  ℕ, suc, zero, ◌+◌, ◌≡◌, refl, sym, ◌∙◌, ap, ◌⊎◌, inl, inr, Bool-cases, true, false, ◌&&◌, ◌||◌,
  Option, none, some, List, [], ◌∷◌, get_elem?, arith, if◌then◌else◌,
}
use fpga_runtime.Common.Eq.{◌==◌, int_Eq}
use fpga_runtime.Common.Int.{ℤ, pos, int_eq_iff}
use fpga_runtime.Containers.Maps
use fpga_runtime.Containers.Maps.{Map, or_else, lookup-insert}
use fpga_runtime.Containers.Sets.{contains}
use fpga_runtime.Exec.{ok}
use fpga_runtime.Tag.{is_store, tag_eq-is_store}
use fpga_runtime.Buffer.{Buffer, BufferArg, buffer_arg}
use fpga_runtime.CosimDevice.{CosimDevice, Host, set_scalar_arg, set_buffer_arg}
use fpga_runtime.OpenclDevice.Directions.{contains-insert_if}
use fpga_runtime.Instance.{
  Arg, scalar, buffer, stream, cosim_device, set_arg, set_args, has_stream, is_stream,
}

-- The object after an argument, and after a row of arguments from a number on.
abbrev pub after_arg : ℕ → Arg → CosimDevice → CosimDevice
after_arg n (scalar bytes) s = set_scalar_arg (pos n) bytes s
after_arg n (buffer b) s = set_buffer_arg (pos n) b.tag (buffer_arg b) s
after_arg n (stream tag w) s = s

abbrev pub after_args : ℕ → List Arg → CosimDevice → CosimDevice
after_args n [] s = s
after_args n (arg ∷ rest) s = after_args (n + 1) rest (after_arg n arg s)

set_arg-after_arg :
    (host : Host) (n : ℕ) (arg : Arg) (s : CosimDevice)
    → is_stream arg ≡ false
    → set_arg (cosim_device host) n arg s ≡ (ok arg, after_arg n arg s)
unfolding set_arg cosim_device is_stream
set_arg-after_arg host n (scalar bytes) s h = refl
set_arg-after_arg host n (buffer b) s h = refl
set_arg-after_arg host n (stream tag w) s h = cc

pub set_args-after_args :
    (host : Host) (n : ℕ) (args : List Arg) (s : CosimDevice)
    → has_stream args ≡ false
    → set_args (cosim_device host) n args s ≡ (ok args, after_args n args s)
unfolding set_args has_stream
set_args-after_args host n [] s h = refl
set_args-after_args host n (arg ∷ rest) s h =
    rw
      (
        set_arg-after_arg host n arg s (ground arith),
        set_args-after_args host (n + 1) rest (after_arg n arg s) (ground arith),
      )
      refl

-- The buffer argument with a number, among arguments that are numbered from `n` on.
abbrev buffer_numbered : ℕ → List Arg → ℤ → Option BufferArg
buffer_numbered n [] j = none
buffer_numbered n (buffer b ∷ rest) j =
    or_else (if j == pos n then some (buffer_arg b) else none) (buffer_numbered (n + 1) rest j)
buffer_numbered n (scalar bytes ∷ rest) j = buffer_numbered (n + 1) rest j
buffer_numbered n (stream tag w ∷ rest) j = buffer_numbered (n + 1) rest j

or_else_assoc : {A : Type 0} (a b c : Option A) → or_else (or_else a b) c ≡ or_else a (or_else b c)
or_else_assoc none b c = refl
or_else_assoc (some a) b c = refl

or_else-none : {A : Type 0} (o : Option A) → o ≡ or_else o none
or_else-none none = refl
or_else-none (some a) = refl

lookup-after_args :
    (n : ℕ) (args : List Arg) (s : CosimDevice) (j : ℤ)
    → Maps.lookup j (after_args n args s).buffer_table
      ≡ or_else (Maps.lookup j s.buffer_table) (buffer_numbered n args j)
unfolding set_scalar_arg set_buffer_arg
lookup-after_args n [] s j = or_else-none _
lookup-after_args n (scalar bytes ∷ rest) s j = lookup-after_args (n + 1) rest _ j
lookup-after_args n (stream tag w ∷ rest) s j = lookup-after_args (n + 1) rest s j
lookup-after_args n (buffer b ∷ rest) s j =
    rw
      (
        lookup-after_args (n + 1) rest (set_buffer_arg (pos n) b.tag (buffer_arg b) s) j,
        lookup-insert (pos n) j (buffer_arg b) s.buffer_table,
      )
      (or_else_assoc _ _ (buffer_numbered (n + 1) rest j))

-- The number of an argument is that of no other.
buffer_numbered_lem :
    (m n i : ℕ) (args : List Arg) (b : Buffer)
    → m ≡ n + i
    → get_elem? args i ≡ some (buffer b)
    → buffer_numbered n args (pos m) ≡ some (buffer_arg b)
buffer_numbered_lem m n i [] b e h = cc
buffer_numbered_lem m n zero (scalar bytes ∷ rest) b e h = cc
buffer_numbered_lem m n zero (stream tag w ∷ rest) b e h = cc
buffer_numbered_lem m n zero (buffer c ∷ rest) b e h =
    let here : (pos m == pos n) ≡ true = ground arith in
    let same : c ≡ b = cc in rw here (ap (λ (x : Buffer). some (buffer_arg x)) same)
buffer_numbered_lem m n (suc i) (scalar bytes ∷ rest) b e h =
    buffer_numbered_lem m (n + 1) i rest b (omega arith) h
buffer_numbered_lem m n (suc i) (stream tag w ∷ rest) b e h =
    buffer_numbered_lem m (n + 1) i rest b (omega arith) h
buffer_numbered_lem m n (suc i) (buffer c ∷ rest) b e h =
    let there : (pos m == pos n) ≡ false = ground arith in
    rw there (buffer_numbered_lem m (n + 1) i rest b (omega arith) h)

-- A buffer argument with a direction that is stored.
abbrev pub IsStored : List Arg → ℕ → Buffer → Type 0
IsStored args i b = (get_elem? args i ≡ some (buffer b)) × (is_store b.tag ≡ true)

-- One that has a number.
abbrev pub StoredAt : List Arg → ℕ → ℤ → Type 0
StoredAt args n j = (i : ℕ) × (b : Buffer) × (j ≡ pos (n + i)) × IsStored args i b

StoredAt-later :
    (arg : Arg) (rest : List Arg) (n : ℕ) (j : ℤ)
    → StoredAt rest (n + 1) j
    → StoredAt (arg ∷ rest) n j
StoredAt-later arg rest n j (i, b, e, h) =
    let shift : (n + 1) + i ≡ n + suc i = omega arith in (suc i, b, e ∙ ap pos shift, h)

contains-after_arg :
    (n : ℕ) (b : Buffer) (s : CosimDevice) (j : ℤ)
    → contains j (after_arg n (buffer b) s).store_indices
      ≡ ((j == pos n && is_store b.tag) || contains j s.store_indices)
unfolding set_buffer_arg
contains-after_arg n b s j =
    rw (← tag_eq-is_store b.tag) (contains-insert_if _ (pos n) j s.store_indices)

stored-here :
    (n : ℕ) (b : Buffer) (rest : List Arg) (s : CosimDevice) (j : ℤ)
    → contains j (after_arg n (buffer b) s).store_indices ≡ true
    → (contains j s.store_indices ≡ true) ⊎ StoredAt (buffer b ∷ rest) n j
stored-here n b rest s j h =
    let shown : ((j == pos n && is_store b.tag) || contains j s.store_indices) ≡ true =
      sym (contains-after_arg n b s j) ∙ h in
    elim (Bool-cases (contains j s.store_indices)) [
      | inl before ↦ inl before
      | inr new ↦
          let number : j ≡ pos n = (int_eq_iff j (pos n)).0 (ground arith) in
          let none_more : n ≡ n + 0 = omega arith in
          inr (0, b, number ∙ ap pos none_more, (refl, ground arith))
    ]

stored-after_args :
    (n : ℕ) (args : List Arg) (s : CosimDevice) (j : ℤ)
    → contains j (after_args n args s).store_indices ≡ true
    → (contains j s.store_indices ≡ true) ⊎ StoredAt args n j
unfolding set_scalar_arg
stored-after_args n [] s j h = inl h
stored-after_args n (scalar bytes ∷ rest) s j h =
    elim (stored-after_args (n + 1) rest (set_scalar_arg (pos n) bytes s) j h) [
      | inl before ↦ inl before
      | inr later ↦ inr (StoredAt-later (scalar bytes) rest n j later)
    ]
stored-after_args n (stream tag w ∷ rest) s j h = elim (stored-after_args (n + 1) rest s j h) [
  | inl before ↦ inl before
  | inr later ↦ inr (StoredAt-later (stream tag w) rest n j later)
]
stored-after_args n (buffer b ∷ rest) s j h =
    elim (stored-after_args (n + 1) rest (after_arg n (buffer b) s) j h) [
      | inl here ↦ stored-here n b rest s j here
      | inr later ↦ inr (StoredAt-later (buffer b) rest n j later)
    ]

after_args-keeps :
    (n : ℕ) (args : List Arg) (s : CosimDevice) (j : ℤ)
    → contains j s.store_indices ≡ true
    → contains j (after_args n args s).store_indices ≡ true
unfolding set_scalar_arg
after_args-keeps n [] s j h = h
after_args-keeps n (scalar bytes ∷ rest) s j h = after_args-keeps (n + 1) rest _ j h
after_args-keeps n (stream tag w ∷ rest) s j h = after_args-keeps (n + 1) rest s j h
after_args-keeps n (buffer b ∷ rest) s j h =
    after_args-keeps (n + 1) rest (after_arg n (buffer b) s) j
      (contains-after_arg n b s j ∙ ground arith)

after_args-stored :
    (m n i : ℕ) (args : List Arg) (s : CosimDevice) (b : Buffer)
    → m ≡ n + i
    → IsStored args i b
    → contains (pos m) (after_args n args s).store_indices ≡ true
after_args-stored m n i [] s b e h = cc
after_args-stored m n zero (scalar bytes ∷ rest) s b e h = cc
after_args-stored m n zero (stream tag w ∷ rest) s b e h = cc
after_args-stored m n zero (buffer c ∷ rest) s b e (h, stored) =
    let here : (pos m == pos n) ≡ true = ground arith in
    let same : is_store c.tag ≡ true = cc in
    after_args-keeps (n + 1) rest (after_arg n (buffer c) s) (pos m)
      (contains-after_arg n c s (pos m) ∙ ground arith)
after_args-stored m n (suc i) (arg ∷ rest) s b e h =
    after_args-stored m (n + 1) i rest (after_arg n arg s) b (omega arith) h

-- Setting arguments moves no file and no memory.
pub after_args-world :
    (n : ℕ) (args : List Arg) (s : CosimDevice)
    → ((after_args n args s).world ≡ s.world) × ((after_args n args s).work_dir ≡ s.work_dir)
unfolding set_scalar_arg set_buffer_arg
after_args-world n [] s = (refl, refl)
after_args-world n (scalar bytes ∷ rest) s = after_args-world (n + 1) rest _
after_args-world n (stream tag w ∷ rest) s = after_args-world (n + 1) rest s
after_args-world n (buffer b ∷ rest) s = after_args-world (n + 1) rest (after_arg n (buffer b) s)

module _ (args : List Arg) (s : CosimDevice) where
  -- On an object without buffers, the buffer of an argument is that argument's.
  pub lookup-placed :
      (i : ℕ) (b : Buffer)
      → s.buffer_table ≡ []
      → get_elem? args i ≡ some (buffer b)
      → Maps.lookup (pos i) (after_args 0 args s).buffer_table ≡ some (buffer_arg b)
  unfolding Maps.lookup
  lookup-placed i b empty h =
      rw (lookup-after_args 0 args s (pos i), empty)
        (buffer_numbered_lem i 0 i args b (omega arith) h)

  pub contains-placed :
      (i : ℕ) (b : Buffer)
      → IsStored args i b
      → contains (pos i) (after_args 0 args s).store_indices ≡ true
  contains-placed i b h = after_args-stored i 0 i args s b (omega arith) h

  -- And what is stored is an argument.
  pub placed-contains :
      (j : ℤ)
      → s.store_indices ≡ []
      → contains j (after_args 0 args s).store_indices ≡ true
      → (i : ℕ) × (b : Buffer) × (j ≡ pos i) × IsStored args i b
  unfolding contains
  placed-contains j empty h = elim (stored-after_args 0 args s j h) [
    | inl old ↦ absurd (ground arith)
    | inr (i, b, e, stored) ↦
        let plain : 0 + i ≡ i = omega arith in (i, b, e ∙ ap pos plain, stored)
  ]
