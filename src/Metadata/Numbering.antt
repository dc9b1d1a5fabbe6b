-- ===== src/Metadata/Numbering.antt =====
-- What the metadata loops compute: the arguments of all kernels numbered through from 0, and for
-- each kernel the number of arguments before it.
use native.Mathlib.Nat.{add-zero}
use mathlib.Core.List.{append-nil, append_assoc}
use fpga_runtime.Common.{
  ℕ, suc, ◌+◌, ◌≤◌, ◌≡◌, refl, ap, Option, none, List, [], ◌∷◌, ◌++◌, map, length, length-append,
  arith, Text, false,
}
use fpga_runtime.Common.Eq.{int_Eq}
use fpga_runtime.Common.Int.{ℤ, pos, int_eq}
use fpga_runtime.Containers.Maps
use fpga_runtime.Containers.Maps.{Map}
use fpga_runtime.ArgInfo.{ArgInfo, Cat, scalar}
use fpga_runtime.Metadata.{
  XmlArg, XmlKernel, Scan, start, get_or_blank, choose_cat, atoi, read_arg, read_args, read_kernel,
  read_kernels,
}

-- Entries keyed by consecutive numbers.
abbrev pub number {ℓ} : {A : Type ℓ} → ℕ → List A → Map ℤ A
number i [] = []
number i (a ∷ as') = (pos i, a) ∷ number (suc i) as'

lookup-number_behind {ℓ} :
    {A : Type ℓ} (base i : ℕ) (xs : List A)
    → base + length xs ≤ i
    → Maps.lookup (pos i) (number base xs) ≡ none
unfolding Maps.lookup
lookup-number_behind base i [] h = refl
lookup-number_behind base i (a ∷ xs) h =
    let differ : int_eq (pos i) (pos base) ≡ false = ground arith in
    rw differ (lookup-number_behind (suc base) i xs (omega arith))

assign-number_behind {ℓ} :
    {A : Type ℓ} (base i : ℕ) (xs : List A) (v : A)
    → i ≡ base + length xs
    → Maps.assign (pos i) v (number base xs) ≡ number base (xs ++ v ∷ [])
unfolding Maps.assign
assign-number_behind base i [] v h =
    let here : i ≡ base = omega arith in ap (λ (j : ℕ). (pos j, v) ∷ []) here
assign-number_behind base i (a ∷ xs) v h =
    let differ : int_eq (pos i) (pos base) ≡ false = ground arith in
    rw differ (ap (◌∷◌ (pos base, a)) (assign-number_behind (suc base) i xs v (omega arith)))

abbrev pub kernel_args : List XmlKernel → List XmlArg
kernel_args [] = []
kernel_args (k ∷ ks) = k.args ++ kernel_args ks

-- The number of arguments before each kernel.
abbrev pub prefix_sums : ℕ → List XmlKernel → List ℤ
prefix_sums i [] = []
prefix_sums i (k ∷ ks) = pos i ∷ prefix_sums (i + length k.args) ks

module _ (category : ℤ → Option Cat) where
  -- The entry for an argument: its number, its attributes and its category.
  unfoldable pub arg_info : ℕ → XmlArg → ArgInfo
  arg_info i xml = record {
    index = pos i;
    name = xml.name;
    type = xml.type;
    cat = choose_cat (category (atoi xml.qualifier)) scalar;
  }

  abbrev pub arg_infos : ℕ → List XmlArg → List ArgInfo
  arg_infos i [] = []
  arg_infos i (xml ∷ rest) = arg_info i xml ∷ arg_infos (suc i) rest

  arg_infos-append :
      (i : ℕ) (xs ys : List XmlArg)
      → arg_infos i (xs ++ ys) ≡ arg_infos i xs ++ arg_infos (i + length xs) ys
  arg_infos-append i [] ys = rw (add-zero i)
  arg_infos-append i (x ∷ xs) ys =
      let shift : i + suc (length xs) ≡ suc i + length xs = omega arith in
      rw (shift, arg_infos-append (suc i) xs ys)

  length-arg_infos : (i : ℕ) (xs : List XmlArg) → length (arg_infos i xs) ≡ length xs
  length-arg_infos i [] = refl
  length-arg_infos i (x ∷ xs) = ap suc (length-arg_infos (suc i) xs)

  -- The variables after a prefix of the metadata.
  abbrev scanned : List ArgInfo → List Text → List ℤ → Scan
  scanned infos names counts = record {
    arg_count = length infos;
    arg_table = number 0 infos;
    kernel_names = names;
    kernel_arg_counts = counts;
  }

  read_arg-scanned :
      (infos : List ArgInfo) (names : List Text) (counts : List ℤ) (xml : XmlArg)
      → read_arg category (scanned infos names counts) xml
        ≡ scanned (infos ++ arg_info (length infos) xml ∷ []) names counts
  unfolding read_arg arg_info get_or_blank
  read_arg-scanned infos names counts xml = rw (
    lookup-number_behind 0 (length infos) infos (omega arith),
    assign-number_behind 0 (length infos) infos (arg_info (length infos) xml) (omega arith),
    length-append infos (arg_info (length infos) xml ∷ []),
  )

  read_args-scanned :
      (infos : List ArgInfo) (names : List Text) (counts : List ℤ) (xs : List XmlArg)
      → read_args category (scanned infos names counts) xs
        ≡ scanned (infos ++ arg_infos (length infos) xs) names counts
  unfolding read_args
  read_args-scanned infos names counts [] = rw append-nil
  read_args-scanned infos names counts (x ∷ xs) =
      let longer = infos ++ arg_info (length infos) x ∷ [] in
      let count : length longer ≡ suc (length infos) =
        omega (arith, length-append infos (arg_info (length infos) x ∷ [])) in
      rw (read_arg-scanned infos names counts x, read_args-scanned longer names counts xs, count)
        (rw append_assoc)

  -- The loops extend the table by all arguments, and the two lists by an entry for each kernel.
  read_kernels-scanned :
      (infos : List ArgInfo) (names : List Text) (counts : List ℤ) (ks : List XmlKernel)
      → read_kernels category (scanned infos names counts) ks
        ≡ scanned
            (infos ++ arg_infos (length infos) (kernel_args ks))
            (names ++ map (λ k. k.name) ks)
            (counts ++ prefix_sums (length infos) ks)
  unfolding read_kernels read_kernel
  read_kernels-scanned infos names counts [] = simp append-nil
  read_kernels-scanned infos names counts (k ∷ ks) =
      let longer = infos ++ arg_infos (length infos) k.args in
      let count : length longer ≡ length infos + length k.args = omega (
        arith,
        length-append infos (arg_infos (length infos) k.args),
        length-arg_infos (length infos) k.args,
      ) in
      rw
        (
          read_args-scanned infos (names ++ k.name ∷ []) (counts ++ pos (length infos) ∷ []) k.args,
          read_kernels-scanned longer (names ++ k.name ∷ []) (counts ++ pos (length infos) ∷ []) ks,
          count,
          arg_infos-append (length infos) k.args (kernel_args ks),
        )
        (simp append_assoc)

  -- The metadata loops number the arguments of all kernels through from 0, in the order of the file,
  -- each entry with its number as key and index, its attributes, and the category of its number or
  -- else scalar; the name lists are in that order, and `kernel_arg_counts` holds for each kernel the
  -- number of the arguments of the kernels before it.
  pub read_kernels_lem :
      (ks : List XmlKernel)
      → read_kernels category start ks ≡ record {
        arg_count = length (kernel_args ks);
        arg_table = number 0 (arg_infos 0 (kernel_args ks));
        kernel_names = map (λ k. k.name) ks;
        kernel_arg_counts = prefix_sums 0 ks;
      }
  read_kernels_lem ks =
      rw (← length-arg_infos 0 (kernel_args ks)) (read_kernels-scanned [] [] [] ks)
