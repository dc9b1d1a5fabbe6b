-- ===== src/CosimDevice/Files.antt =====
-- `WriteToDevice` of the simulator, and what a second `SetBufferArg` at one index does.
use fpga_runtime.Common.{All-map}
use fpga_runtime.Common.{
  ℕ, ◌≡◌, ◌≢◌, refl, ap, false, Option, some, [], ◌∷◌, Text, Bool-cases, inl, inr, arith, All, true,
}
use fpga_runtime.Common.Eq.{int_Eq, text_Eq, text_eq, text_eq_iff}
use fpga_runtime.Common.Int.{ℤ, int_eq, int_eq_iff}
use fpga_runtime.Containers.Maps
use fpga_runtime.Containers.Maps.{
  Map, lookup-assign, lookup-assign_self, has_key-insert, lookup-insert_old,
}
use fpga_runtime.Tag.{Tag}
use fpga_runtime.Buffer.{BufferArg, size_in_bytes}
use fpga_runtime.CosimDevice.{
  CosimDevice, input_data_path, bytes_at, write_files, write_to_device, set_buffer_arg,
}
use fpga_runtime.CosimDevice.Paths.{data_paths_injective}

-- No key twice.
abbrev pub KeysDistinct : {V : Type 0} → Map ℤ V → Type 0
KeysDistinct [] = Unit {0}
KeysDistinct ((i, arg) ∷ m) = (Maps.has_key i m ≡ false) × KeysDistinct m

insert-KeysDistinct :
    (index : ℤ) (arg : BufferArg) (m : Map ℤ BufferArg)
    → KeysDistinct m
    → KeysDistinct (Maps.insert index arg m)
unfolding Maps.insert Maps.has_key
insert-KeysDistinct index arg [] d = (refl, tt)
insert-KeysDistinct index arg ((i, x) ∷ m) d = ground (
  arith,
  insert-KeysDistinct index arg m d.1,
  has_key-insert index i arg m,
  int_eq_iff index i,
  int_eq_iff i index,
)

has_key_of_lookup :
    (j : ℤ) (x : BufferArg) (m : Map ℤ BufferArg)
    → Maps.lookup j m ≡ some x
    → Maps.has_key j m ≡ true
unfolding Maps.lookup Maps.has_key
has_key_of_lookup j x [] h = ground arith
has_key_of_lookup j x ((i, y) ∷ m) h = ground (arith, has_key_of_lookup j x m)

-- Each entry of such a table is the one of its key.
pub KeysDistinct-entries :
    (m : Map ℤ BufferArg)
    → KeysDistinct m
    → All (λ (entry : ℤ × BufferArg). Maps.lookup entry.0 m ≡ some entry.1) m
unfolding Maps.lookup
KeysDistinct-entries [] d = tt
KeysDistinct-entries ((i, arg) ∷ m) d = (
  rw ((int_eq_iff i i).1 refl) refl,
  All-map _ _ m
      (λ (entry : ℤ × BufferArg) found. elim (Bool-cases (int_eq entry.0 i)) [
        | inl same ↦ absurd (
            let at : Maps.has_key entry.0 m ≡ true = has_key_of_lookup entry.0 entry.1 m found in
            cc (ap (λ (k : ℤ). Maps.has_key k m) ((int_eq_iff entry.0 i).0 same), at, d.0))
        | inr differ ↦ rw differ found
      ])
      (KeysDistinct-entries m d.1),
)

-- `SetBufferArg` keeps the keys of the buffer table distinct.
pub set_buffer_arg-KeysDistinct :
    (index : ℤ) (tag : Tag) (arg : BufferArg) (s : CosimDevice)
    → KeysDistinct s.buffer_table
    → KeysDistinct (set_buffer_arg index tag arg s).buffer_table
unfolding set_buffer_arg
set_buffer_arg-KeysDistinct index tag arg s d = insert-KeysDistinct index arg s.buffer_table d

pub text_eq-false : (s t : Text) → s ≢ t → text_eq s t ≡ false
text_eq-false s t ne = elim (Bool-cases (text_eq s t)) [
  | inl same ↦ absurd (ne ((text_eq_iff s t).0 same))
  | inr differ ↦ differ
]

-- The files of the arguments of a table leave the file of any other argument alone.
write_files-other :
    (work_dir : Text) (memory : ℕ → ℕ) (i : ℤ) (m : Map ℤ BufferArg) (files : Map Text Text)
    → Maps.has_key i m ≡ false
    → Maps.lookup (input_data_path work_dir i) (write_files work_dir memory m files)
      ≡ Maps.lookup (input_data_path work_dir i) files
unfolding write_files Maps.has_key
write_files-other work_dir memory i [] files h = refl
write_files-other work_dir memory i ((j, arg) ∷ m) files h =
    let differ : int_eq i j ≡ false = ground arith in
    let ne : i ≢ j = λ e. cc ((int_eq_iff i j).1 e, differ) in
    let apart : text_eq (input_data_path work_dir i) (input_data_path work_dir j) ≡ false =
      text_eq-false _ _ (data_paths_injective work_dir i j ne).0 in
    let content = bytes_at memory arg.ptr (size_in_bytes arg) in
    rw (
      write_files-other work_dir memory i m (Maps.assign (input_data_path work_dir j) content files)
          (ground arith),
      lookup-assign (input_data_path work_dir j) (input_data_path work_dir i) content files,
      apart,
    )

write_files_lem :
    (work_dir : Text) (memory : ℕ → ℕ) (i : ℤ) (arg : BufferArg) (m : Map ℤ BufferArg)
    (files : Map Text Text)
    → KeysDistinct m
    → Maps.lookup i m ≡ some arg
    → Maps.lookup (input_data_path work_dir i) (write_files work_dir memory m files)
      ≡ some (bytes_at memory arg.ptr (size_in_bytes arg))
unfolding write_files Maps.lookup
write_files_lem work_dir memory i arg [] files d h = absurd (ground arith)
write_files_lem work_dir memory i arg ((j, x) ∷ m) files d h =
    let next =
      Maps.assign (input_data_path work_dir j) (bytes_at memory x.ptr (size_in_bytes x)) files in
    elim (Bool-cases (int_eq i j)) [
      | inl same ↦
          let e : i ≡ j = (int_eq_iff i j).0 same in
          let first : ◌≡◌ {A = Option BufferArg} (some x) (some arg) = rw same at h in
          let here : x ≡ arg = cc first in
          rw
            (
              write_files-other work_dir memory i m next (rw e d.0),
              e,
              lookup-assign_self (input_data_path work_dir j)
                  (bytes_at memory x.ptr (size_in_bytes x)) files,
            )
            (ap (λ (a : BufferArg). some (bytes_at memory a.ptr (size_in_bytes a))) here)
      | inr differ ↦ write_files_lem work_dir memory i arg m next d.1 (ground arith)
    ]

-- Where no two entries of the buffer table have the same index, `WriteToDevice` leaves in the input file
-- of every argument of the table exactly the bytes of its host memory, also if it was suspended.
pub lookup-write_to_device :
    (s : CosimDevice) (i : ℤ) (arg : BufferArg)
    → KeysDistinct s.buffer_table
    → Maps.lookup i s.buffer_table ≡ some arg
    → Maps.lookup (input_data_path s.work_dir i) (write_to_device s).files
      ≡ some (bytes_at s.memory arg.ptr (size_in_bytes arg))
unfolding write_to_device
lookup-write_to_device s i arg d h =
    write_files_lem s.work_dir s.memory i arg s.buffer_table s.files d h

-- A `SetBufferArg` at an index that has a buffer does not replace it: whatever the new argument, the next
-- `WriteToDevice` writes the bytes of the first one.
pub set_buffer_arg_again :
    (s : CosimDevice) (i : ℤ) (tag : Tag) (old new : BufferArg)
    → KeysDistinct s.buffer_table
    → Maps.lookup i s.buffer_table ≡ some old
    → Maps.lookup
        (input_data_path s.work_dir i)
        (write_to_device (set_buffer_arg i tag new s)).files
      ≡ some (bytes_at s.memory old.ptr (size_in_bytes old))
unfolding set_buffer_arg
set_buffer_arg_again s i tag old new d h =
    let kept = lookup-insert_old i new old s.buffer_table h in
    lookup-write_to_device (set_buffer_arg i tag new s) i old (rw kept d) (rw kept h)
