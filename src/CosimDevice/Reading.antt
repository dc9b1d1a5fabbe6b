-- ===== src/CosimDevice/Reading.antt =====
-- `ReadFromDevice` of the simulator: where the bytes of the output files go.
use mathlib.Core.Path.{subst}
use fpga_runtime.Exec.{ok}
use fpga_runtime.Common.{
  ℕ, ◌+◌, ◌<◌, ◌≤◌, ◌≡◌, ◌≢◌, refl, ap, ◌∙◌, true, false, ◌⊎◌, some, List, [], ◌∷◌, get_elem?,
  arith, Bool-cases, inl, inr, sym,
}
use fpga_runtime.Common.Eq.{int_Eq, text_Eq}
use fpga_runtime.Common.Int.{ℤ, int_eq, int_eq_iff}
use fpga_runtime.Containers.Maps
use fpga_runtime.Containers.Maps.{Map, lookup_of_has_key}
use fpga_runtime.Containers.Sets.{contains}
use fpga_runtime.Buffer.{BufferArg, size_in_bytes}
use fpga_runtime.CosimDevice.Bytes.{
  or_old, Outside, or_old-twice, read_file-inside, read_file-Outside,
}
use fpga_runtime.CosimDevice.{or_empty, read_file, CosimDevice, output_data_path, read_files}

-- The host memory of two arguments has no address in common.
abbrev pub Apart : BufferArg → BufferArg → Type 0
Apart x y = (x.ptr + size_in_bytes x ≤ y.ptr) ⊎ (y.ptr + size_in_bytes y ≤ x.ptr)

-- The arguments of a list other than `i` lie apart from its memory.
abbrev pub OthersApart : Map ℤ BufferArg → List ℤ → ℤ → BufferArg → Type 0
OthersApart table indices i arg =
    (j : ℤ) (other : BufferArg)
    → contains j indices ≡ true
    → j ≢ i
    → Maps.lookup j table ≡ some other
    → Apart arg other

-- Every index has an entry.
abbrev pub Found : Map ℤ BufferArg → List ℤ → Type 0
Found table indices = (j : ℤ) → contains j indices ≡ true → Maps.has_key j table ≡ true

-- The byte `k` of an argument's output file, or the one that was there before.
abbrev pub output_byte : CosimDevice → ℤ → BufferArg → ℕ → ℕ
output_byte s i arg k =
    or_old (get_elem? (or_empty (Maps.lookup (output_data_path s.work_dir i) s.files)) k)
      (s.memory (arg.ptr + k))

-- An address that belongs to none of the arguments keeps its byte.
abbrev pub KeepsOthers : List ℤ → CosimDevice → (ℕ → ℕ) → Type 0
KeepsOthers indices s m =
    (a : ℕ)
    → ((j : ℤ) (other : BufferArg)
        → contains j indices ≡ true
        → Maps.lookup j s.buffer_table ≡ some other
        → Outside other.ptr (size_in_bytes other) a)
    → m a ≡ s.memory a

-- The addresses of an argument that lies apart from the others get the bytes of its file.
abbrev pub ReadsOutputs : List ℤ → CosimDevice → (ℕ → ℕ) → Type 0
ReadsOutputs indices s m =
    (i : ℤ) (arg : BufferArg) (k : ℕ)
    → contains i indices ≡ true
    → Maps.lookup i s.buffer_table ≡ some arg
    → OthersApart s.buffer_table indices i arg
    → k < size_in_bytes arg
    → m (arg.ptr + k) ≡ output_byte s i arg k

contains-here : (j : ℤ) (rest : List ℤ) → contains j (j ∷ rest) ≡ true
unfolding contains
contains-here j rest = ground (arith, int_eq_iff j j)

contains-there : (i j : ℤ) (rest : List ℤ) → contains i rest ≡ true → contains i (j ∷ rest) ≡ true
unfolding contains
contains-there i j rest h = ground arith

contains-first :
    (i j : ℤ) (rest : List ℤ)
    → contains i (j ∷ rest) ≡ true
    → contains i rest ≡ false
    → int_eq i j ≡ true
unfolding contains
contains-first i j rest h first = ground arith

Apart-Outside :
    (x y : BufferArg) (k : ℕ)
    → Apart x y
    → k < size_in_bytes x
    → Outside y.ptr (size_in_bytes y) (x.ptr + k)
Apart-Outside x y k h l = ground arith

-- The device after the first index was read.
abbrev after_read : ℤ → BufferArg → CosimDevice → CosimDevice
after_read j arg s = record s {
  world = record s.world {
    memory = read_file s.files (output_data_path s.work_dir j) arg s.memory;
  };
}

module _ (j : ℤ) (x : BufferArg) (rest : List ℤ) (s : CosimDevice)
    (e : Maps.lookup j s.buffer_table ≡ some x) (m : ℕ → ℕ)
    (keeps : KeepsOthers rest (after_read j x s) m)
    (reads : ReadsOutputs rest (after_read j x s) m) where
  keeps-cons : KeepsOthers (j ∷ rest) s m
  keeps-cons a out =
      keeps a (λ i other h l. out i other (contains-there i j rest h) l)
      ∙ read_file-Outside s.files (output_data_path s.work_dir j) x s.memory a
          (out j x (contains-here j rest) e)

  -- What is read first goes to the addresses of its argument.
  own_read :
      (i : ℤ) (arg : BufferArg) (k : ℕ)
      → int_eq i j ≡ true
      → Maps.lookup i s.buffer_table ≡ some arg
      → k < size_in_bytes arg
      → (after_read j x s).memory (arg.ptr + k) ≡ output_byte s i arg k
  own_read i arg k same l h =
      let p : i ≡ j = (int_eq_iff i j).0 same in
      let q : x ≡ arg = cc (e, l, p) in
      rw (p, ← q)
        (read_file-inside s.files (output_data_path s.work_dir j) x s.memory k
          (subst (λ (b : BufferArg). k < size_in_bytes b) (sym q) h))

  -- What was read first, of an argument and at one of its addresses.
  first_read :
      (i : ℤ) (arg : BufferArg) (k : ℕ)
      → Maps.lookup i s.buffer_table ≡ some arg
      → OthersApart s.buffer_table (j ∷ rest) i arg
      → k < size_in_bytes arg
      → or_old
          (get_elem? (or_empty (Maps.lookup (output_data_path s.work_dir i) s.files)) k)
          ((after_read j x s).memory (arg.ptr + k))
        ≡ output_byte s i arg k
  first_read i arg k l apart h =
      let c = get_elem? (or_empty (Maps.lookup (output_data_path s.work_dir i) s.files)) k in
      elim (Bool-cases (int_eq i j)) [
        | inl same ↦ ap (λ n. or_old c n) (own_read i arg k same l h) ∙ or_old-twice c _
        | inr differ ↦
            let ne : j ≢ i = λ p. cc ((int_eq_iff i j).1 (sym p), differ) in
            let apart_x = apart j x (contains-here j rest) ne e in
            ap (λ n. or_old c n)
              (read_file-Outside s.files (output_data_path s.work_dir j) x s.memory (arg.ptr + k)
                (Apart-Outside arg x k apart_x h))
      ]

  reads-cons : ReadsOutputs (j ∷ rest) s m
  reads-cons i arg k h l apart small = elim (Bool-cases (contains i rest)) [
    | inl later ↦
        reads i arg k later l (λ o other g ne. apart o other (contains-there o j rest g) ne) small
        ∙ first_read i arg k l apart small
    | inr first ↦
        keeps (arg.ptr + k) (λ o other g q.
          Apart-Outside arg other k
            (apart o other (contains-there o j rest g) (λ p. cc (g, first, p)) q) small)
        ∙ own_read i arg k (contains-first i j rest h first) l small
  ]

pub read_files_lem :
    (indices : List ℤ) (s : CosimDevice)
    → Found s.buffer_table indices
    → (m : ℕ → ℕ) × (read_files indices s
        ≡ (ok tt, record s { world = record s.world { memory = m } }))
      × KeepsOthers indices s m
      × ReadsOutputs indices s m
unfolding read_files contains
read_files_lem [] s found =
    (s.memory, refl, λ a out. refl, λ i arg k h l apart small. absurd (ground arith))
read_files_lem (j ∷ rest) s found =
    let (x, e) = lookup_of_has_key j s.buffer_table (found j (contains-here j rest)) in
    let (m, returned, keeps, reads) =
      read_files_lem rest (after_read j x s) (λ i h. found i (contains-there i j rest h)) in
    (m, rw e returned, keeps-cons j x rest s e m keeps reads, reads-cons j x rest s e m keeps reads)
