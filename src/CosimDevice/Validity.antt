-- ===== src/CosimDevice/Validity.antt =====
-- The tables of the simulator: no index has two buffers, and every index to store has one.
use fpga_runtime.Common.{true, false, Bool, if◌then◌else◌, List, arith}
use fpga_runtime.Common.Eq.{int_Eq}
use fpga_runtime.Common.Int.{ℤ}
use fpga_runtime.Containers.Maps
use fpga_runtime.Containers.Maps.{Map, has_key-insert}
use fpga_runtime.Containers.Sets
use fpga_runtime.Containers.Sets.{contains, contains-insert}
use fpga_runtime.Tag.{Tag}
use fpga_runtime.Buffer.{BufferArg}
use fpga_runtime.CosimDevice.{CosimDevice, set_buffer_arg}
use fpga_runtime.CosimDevice.Files.{KeysDistinct, set_buffer_arg-KeysDistinct}
use fpga_runtime.CosimDevice.Reading.{Found}

pub record IsValid (s : CosimDevice) : Type 0 where
  pub distinct : KeysDistinct s.buffer_table
  pub found : Found s.buffer_table s.store_indices

insert-Found :
    (b : Bool) (index : ℤ) (arg : BufferArg) (table : Map ℤ BufferArg) (indices : List ℤ)
    → Found table indices
    → Found (Maps.insert index arg table) (if b then Sets.insert index indices else indices)
insert-Found true index arg table indices h j c =
    ground (arith, has_key-insert index j arg table, contains-insert index j indices, h j)
insert-Found false index arg table indices h j c =
    ground (arith, has_key-insert index j arg table, h j)

pub set_buffer_arg-IsValid :
    (index : ℤ) (tag : Tag) (arg : BufferArg) (s : CosimDevice)
    → IsValid s
    → IsValid (set_buffer_arg index tag arg s)
unfolding set_buffer_arg
set_buffer_arg-IsValid index tag arg s v = record {
  distinct = set_buffer_arg-KeysDistinct index tag arg s v.distinct;
  found = insert-Found _ index arg s.buffer_table s.store_indices v.found;
}
