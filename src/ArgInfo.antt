-- ===== src/ArgInfo.antt =====
-- src/frt/arg_info.h and src/frt/arg_info.cpp
use fpga_runtime.Common.{Text, codes, ◌++◌}
use fpga_runtime.Common.Int.{ℤ}
use fpga_runtime.Common.Decimal.{to_string}

pub data Cat : Type 0 where
  scalar mmap stream : Cat

pub record ArgInfo : Type 0 where
  pub index : ℤ
  pub name : Text
  pub type : Text
  pub cat : Cat

-- The two `operator<<`, as what they print.
unfoldable pub print_cat : Cat → Text
print_cat scalar = codes "scalar"
print_cat mmap = codes "mmap"
print_cat stream = codes "stream"

unfoldable pub print_arg_info : ArgInfo → Text
unfolding print_cat
print_arg_info arg =
    codes "ArgInfo: {index: "
    ++ (to_string arg.index
        ++ (codes ", name: '"
            ++ (arg.name
                ++ (codes "', type: '"
                    ++ (arg.type ++ (codes "', category: " ++ (print_cat arg.cat ++ codes "}")))))))
