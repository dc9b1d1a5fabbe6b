-- ===== src/OpenclDevice/Info.antt =====
-- `OpenclDevice::GetArgsInfo` after the constructors have read the metadata.
use mathlib.Core.Path.{subst}
use mathlib.Core.List.{Perm}
use mathlib.Core.List.Perm
use fpga_runtime.Common.{ℕ, suc, ◌≡◌, refl, ap, Option, List, [], ◌∷◌, map, arith, All, ◌<◌}
use fpga_runtime.Common.Int.{ℤ, pos, ◌<ℤ◌}
use fpga_runtime.ArgInfo.{ArgInfo, Cat}
use fpga_runtime.Containers.Sort.{IsStrict, sort_by_unique}
use fpga_runtime.Metadata.{Scan, start, read_kernels, XmlArg, XmlKernel}
use fpga_runtime.Metadata.Numbering.{read_kernels_lem, number, kernel_args, arg_info, arg_infos}
use fpga_runtime.OpenclDevice.{OpenclDevice, get_args_info}

ArgInfo-IsSet : IsSet ArgInfo
ArgInfo-IsSet = hlevel

map-number : {A : Type 0} (i : ℕ) (xs : List A) → map (λ (e : ℤ × A). e.1) (number i xs) ≡ xs
map-number i [] = refl
map-number i (x ∷ xs) = ap (◌∷◌ x) (map-number (suc i) xs)

module _ (category : ℤ → Option Cat) where
  arg_infos-above :
      (i j : ℕ) (xs : List XmlArg)
      → i < j
      → All (λ (y : ArgInfo). pos i <ℤ y.index) (arg_infos category j xs)
  unfolding arg_info
  arg_infos-above i j [] h = tt
  arg_infos-above i j (x ∷ xs) h = (omega arith, arg_infos-above i (suc j) xs (omega arith))

  arg_infos-IsStrict :
      (i : ℕ) (xs : List XmlArg) → IsStrict ArgInfo-IsSet (λ a. a.index) (arg_infos category i xs)
  unfolding arg_info
  arg_infos-IsStrict i [] = tt
  arg_infos-IsStrict i (x ∷ xs) =
      (arg_infos-above i (suc i) xs (omega arith), arg_infos-IsStrict (suc i) xs)

  -- In whatever order the table holds the entries that the metadata loops make, `GetArgsInfo` returns the
  -- arguments of all kernels, once each, in the order of the metadata.
  pub get_args_info_lem :
      (ks : List XmlKernel) (s : OpenclDevice)
      → Perm s.arg_table (read_kernels category start ks).arg_table
      → get_args_info s ≡ arg_infos category 0 (kernel_args ks)
  unfolding get_args_info
  get_args_info_lem ks s p =
      let infos = arg_infos category 0 (kernel_args ks) in
      let numbered : Perm s.arg_table (number 0 infos) =
        subst (λ (t : Scan). Perm s.arg_table t.arg_table) (read_kernels_lem category ks) p in
      sort_by_unique ArgInfo-IsSet (λ a. a.index) _ _ (arg_infos-IsStrict 0 (kernel_args ks))
        (subst (Perm _) (map-number 0 infos) (Perm.map (λ (e : ℤ × ArgInfo). e.1) numbered))
