-- ===== src/Tests/Programs.antt =====
-- The theorems on whole programs at concrete objects.
use fpga_runtime.Common.{◌≡◌, ◌↔◌, ◌++◌, refl, true, false, some, List, [], ◌∷◌, codes}
use fpga_runtime.Containers.Ordered
use fpga_runtime.Exec.{ok, err, runtime_error}
use fpga_runtime.CosimDevice.{is_zip}
use fpga_runtime.Tag.{read_only}
use fpga_runtime.XilinxDevice.{set_buffer, create_buffer, set_stream_arg}
use fpga_runtime.OpenclDevice.{checked, mark_direction, set_scalar_arg, OpenclDevice, get_kernel}
use fpga_runtime.Instance.{
  set_arg, Arg, scalar, buffer, stream, read_stream, xilinx_device, set_args, open_bitstream,
  is_xclbin, is_elf, xilinx, intel, cosim,
}
use fpga_runtime.Instance.Bitstreams.{open_bitstream_lem}
use fpga_runtime.Tests.{counting, running, floats}

abbrev args : List Arg
args = buffer floats ∷ scalar (6 ∷ 0 ∷ 0 ∷ 0 ∷ []) ∷ read_stream (codes "out") ∷ []

-- The arguments with the stream attached, and the object that has them.
abbrev args_after : List Arg
args_after =
    buffer floats
    ∷ scalar (6 ∷ 0 ∷ 0 ∷ 0 ∷ [])
    ∷ stream read_only (record {
      name = codes "out";
      stream = some (record { name = codes "out"; stream = 103; kernel = 11; device = 1 });
    })
    ∷ []

abbrev running_after : OpenclDevice
running_after = (set_args (xilinx_device counting) 0 args running).1

args_set : set_args (xilinx_device counting) 0 args running ≡ (ok args_after, running_after)
unfolding set_args xilinx_device set_arg set_buffer create_buffer checked get_kernel Ordered.at_prev
    Ordered.upper_bound mark_direction set_scalar_arg set_stream_arg
args_set = refl

open_bitstream_example :
    let b = codes "xclbin2" ++ 0 ∷ 7 ∷ [] in
    ((open_bitstream b ≡ ok xilinx) ↔ (is_xclbin b ≡ true))
    × ((open_bitstream b ≡ ok intel) ↔ (is_elf b ≡ true))
    × ((open_bitstream b ≡ ok cosim) ↔ (is_zip b ≡ true))
    × ((open_bitstream b ≡ err (runtime_error (codes "unexpected bitstream file")))
        ↔ ((is_xclbin b ≡ false) × (is_elf b ≡ false) × (is_zip b ≡ false)))
open_bitstream_example = open_bitstream_lem (codes "xclbin2" ++ 0 ∷ 7 ∷ [])
