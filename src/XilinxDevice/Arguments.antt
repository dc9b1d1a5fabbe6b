-- ===== src/XilinxDevice/Arguments.antt =====
-- `SetBufferArg` of a Xilinx device: the buffer uses the host's memory.
use fpga_runtime.Common.{ℕ, ◌≡◌, some, [], ◌∷◌, ◌++◌}
use fpga_runtime.Common.Int.{ℤ}
use fpga_runtime.Exec.{ok}
use fpga_runtime.Opencl.{Library, Accepts, cl_mem_use_host_ptr, create_buffer, set_arg_buffer}
use fpga_runtime.Tag.{Tag}
use fpga_runtime.Buffer.{BufferArg, size_in_bytes}
use fpga_runtime.OpenclDevice.{OpenclDevice, get_kernel, to_cl_uint, mem_flags, mark_direction}
use fpga_runtime.OpenclDevice.Arguments.{with_buffer, create_buffer_base_lem, set_buffer_arg_lem}
use fpga_runtime.XilinxDevice
use fpga_runtime.XilinxDevice.{set_buffer}

-- The object after a Xilinx `SetBufferArg`.
abbrev pub after_set_buffer : Library → ℤ → Tag → BufferArg → ℤ → ℕ → OpenclDevice → OpenclDevice
after_set_buffer lib index tag arg i kernel s =
    let flags = cl_mem_use_host_ptr ∷ mem_flags tag in
    let c = create_buffer s.context flags (size_in_bytes arg) arg.ptr in
    let buffer = (lib.respond s.calls c).value in
    let t = mark_direction index tag (with_buffer lib index flags arg.ptr (size_in_bytes arg) s) in
    record t { calls = t.calls ++ set_arg_buffer kernel (to_cl_uint i) buffer ∷ [] }

-- With a library that turns nothing down, and where `GetKernel` finds the argument, a Xilinx
-- `SetBufferArg` returns: it makes one buffer over the host's memory, with the flags of the tag, the
-- address and the byte count of the argument, puts it in the table at the index, marks the
-- directions of the tag, and then hands it to the kernel under the argument's number there.
pub set_buffer_lem :
    (lib : Library) (index : ℤ) (tag : Tag) (arg : BufferArg) (s : OpenclDevice) (i : ℤ)
    (kernel : ℕ)
    → Accepts lib
    → get_kernel s.kernels index ≡ some (i, kernel)
    → set_buffer lib index tag arg s ≡ (ok tt, after_set_buffer lib index tag arg i kernel s)
unfolding set_buffer XilinxDevice.create_buffer mark_direction
set_buffer_lem lib index tag arg s i kernel a found =
    set_buffer_arg_lem lib (XilinxDevice.create_buffer lib) index tag arg s _ _ i kernel
      (create_buffer_base_lem lib a index (cl_mem_use_host_ptr ∷ mem_flags tag) arg.ptr
        (size_in_bytes arg) s)
      found
