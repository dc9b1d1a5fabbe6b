-- ===== src/Metadata.antt =====
-- The kernel metadata of a binary, as the constructors of src/frt/xilinx_opencl_device.cpp and
-- src/frt/intel_opencl_device.cpp read it: two copies of one pair of loops, which differ in the
-- attributes that they ask for and in the numbers of the categories. An XML element is given by its
-- attributes and children, as TinyXML returns them; the elements and attributes that the loops
-- dereference are there.
pub mod Numbering
use fpga_runtime.Common.{
  ℕ, suc, ◌+◌, ◌-◌, ◌*◌, Bool, ◌&&◌, ◌||◌, Option, none, some, List, [], ◌∷◌, ◌++◌, Text, ltb, leb,
  nat_eq, if◌then◌else◌,
}
use fpga_runtime.Common.Eq.{int_Eq}
use fpga_runtime.Common.Int.{ℤ, pos, negsuc, int_eq, sub_ℕ}
use fpga_runtime.Containers.Maps
use fpga_runtime.Containers.Maps.{Map}
use fpga_runtime.ArgInfo.{ArgInfo, Cat, scalar, mmap, stream}

-- `qualifier` is `addressQualifier` for Xilinx and `opencl_access_type` for Intel.
pub record XmlArg : Type 0 where
  pub name : Text
  pub type : Text
  pub qualifier : Text

pub record XmlKernel : Type 0 where
  pub name : Text
  pub args : List XmlArg

-- `atoi` of the C library: white space, a sign, and the digits up to the first other byte.
atoi_digits : ℕ → Text → ℕ
atoi_digits n [] = n
atoi_digits n (c ∷ s) =
    let rest = atoi_digits (n * 10 + (c - 48)) s in if leb 48 c && leb c 57 then rest else n

atoi_sign : Text → ℤ
unfolding atoi_digits
atoi_sign [] = pos 0
atoi_sign (c ∷ s) =
    if nat_eq c b'-'
    then sub_ℕ 0 (atoi_digits 0 s)
    else if nat_eq c b'+'
    then pos (atoi_digits 0 s)
    else pos (atoi_digits 0 (c ∷ s))

unfoldable pub atoi : Text → ℤ
unfolding atoi_sign
atoi [] = pos 0
atoi (c ∷ s) =
    let rest = atoi s in if nat_eq c 32 || (leb 9 c && leb c 13) then rest else atoi_sign (c ∷ s)

-- The two `switch`es over the category; `none` is the default, which only warns.
unfoldable pub xilinx_cat : ℤ → Option Cat
xilinx_cat n =
    if int_eq n (pos 0)
    then some scalar
    else if int_eq n (pos 1)
    then some mmap
    else if int_eq n (pos 4)
    then some stream
    else none

unfoldable pub intel_cat : ℤ → Option Cat
intel_cat n = if int_eq n (pos 0) then some scalar else if int_eq n (pos 2) then some mmap else none

-- The variables of the loops.
pub record Scan : Type 0 where
  pub arg_count : ℕ
  pub arg_table : Map ℤ ArgInfo
  pub kernel_names : List Text
  pub kernel_arg_counts : List ℤ

abbrev pub start : Scan
start = record { arg_count = 0; arg_table = []; kernel_names = []; kernel_arg_counts = [] }

-- What `arg_table_[arg_count]` inserts for a new key: a value-initialised `ArgInfo`.
abbrev pub blank : ArgInfo
blank = record { index = pos 0; name = []; type = []; cat = scalar }

unfoldable pub get_or_blank : Option ArgInfo → ArgInfo
get_or_blank none = blank
get_or_blank (some a) = a

-- The category that the `switch` leaves in an entry.
unfoldable pub choose_cat : Option Cat → Cat → Cat
choose_cat none old = old
choose_cat (some c) old = c

module _ (category : ℤ → Option Cat) where
  -- One round of the inner loop.
  unfoldable pub read_arg : Scan → XmlArg → Scan
  unfolding get_or_blank choose_cat
  read_arg s xml =
      let old = get_or_blank (Maps.lookup (pos s.arg_count) s.arg_table) in
      let arg : ArgInfo = record {
        index = pos s.arg_count;
        name = xml.name;
        type = xml.type;
        cat = choose_cat (category (atoi xml.qualifier)) old.cat;
      } in
      record s {
        arg_count = s.arg_count + 1;
        arg_table = Maps.assign (pos s.arg_count) arg s.arg_table;
      }

  unfoldable pub read_args : Scan → List XmlArg → Scan
  read_args s [] = s
  read_args s (xml ∷ rest) = read_args (read_arg s xml) rest

  -- One round of the outer loop.
  unfoldable pub read_kernel : Scan → XmlKernel → Scan
  read_kernel s xml =
      read_args
        (record s {
          kernel_names = s.kernel_names ++ xml.name ∷ [];
          kernel_arg_counts = s.kernel_arg_counts ++ pos s.arg_count ∷ [];
        })
        xml.args

  unfoldable pub read_kernels : Scan → List XmlKernel → Scan
  read_kernels s [] = s
  read_kernels s (xml ∷ rest) = read_kernels (read_kernel s xml) rest
