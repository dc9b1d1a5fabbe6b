-- ===== src/IntelDevice/Arguments.antt =====
-- `SetBufferArg` of an Intel device: the buffer has memory of its own.
use fpga_runtime.Common.{ℕ, ◌≡◌, some, [], ◌∷◌, ◌++◌}
use fpga_runtime.Common.Int.{ℤ}
use fpga_runtime.Containers.Maps
use fpga_runtime.Common.Eq.{int_Eq}
use fpga_runtime.Exec.{ok}
use fpga_runtime.Opencl.{
  Library, Accepts, cl_mem_heterogeneous_intelfpga, create_buffer, set_arg_buffer,
}
use fpga_runtime.Tag.{Tag}
use fpga_runtime.Buffer.{BufferArg, size_in_bytes}
use fpga_runtime.OpenclDevice.{OpenclDevice, get_kernel, to_cl_uint, mem_flags, mark_direction}
use fpga_runtime.OpenclDevice.Arguments.{with_buffer, create_buffer_base_lem, set_buffer_arg_lem}
use fpga_runtime.IntelDevice
use fpga_runtime.IntelDevice.{set_buffer}

-- The object with the host's address kept back.
abbrev pub keep_ptr : ℤ → ℕ → OpenclDevice → OpenclDevice
keep_ptr index host_ptr s = record s {
  host_ptr_table = Maps.assign index host_ptr s.host_ptr_table;
}

-- The object after an Intel `SetBufferArg`.
abbrev pub after_set_buffer : Library → ℤ → Tag → BufferArg → ℤ → ℕ → OpenclDevice → OpenclDevice
after_set_buffer lib index tag arg i kernel s =
    let flags = cl_mem_heterogeneous_intelfpga ∷ mem_flags tag in
    let c = create_buffer s.context flags (size_in_bytes arg) 0 in
    let buffer = (lib.respond s.calls c).value in
    let t =
      mark_direction index tag
        (with_buffer lib index flags 0 (size_in_bytes arg) (keep_ptr index arg.ptr s)) in
    record t { calls = t.calls ++ set_arg_buffer kernel (to_cl_uint i) buffer ∷ [] }

-- With a library that turns nothing down, and where `GetKernel` finds the argument, an Intel
-- `SetBufferArg` returns: it keeps the argument's address in the table of host addresses, makes one
-- heterogeneous buffer of the argument's byte count with no host memory and the flags of the tag, puts
-- it in the table at the index, marks the directions of the tag, and then hands it to the kernel
-- under the argument's number there.
pub set_buffer_intel_lem :
    (lib : Library) (index : ℤ) (tag : Tag) (arg : BufferArg) (s : OpenclDevice) (i : ℤ)
    (kernel : ℕ)
    → Accepts lib
    → get_kernel s.kernels index ≡ some (i, kernel)
    → set_buffer lib index tag arg s ≡ (ok tt, after_set_buffer lib index tag arg i kernel s)
unfolding set_buffer IntelDevice.create_buffer mark_direction
set_buffer_intel_lem lib index tag arg s i kernel a found =
    set_buffer_arg_lem lib (IntelDevice.create_buffer lib) index tag arg s _ _ i kernel
      (create_buffer_base_lem lib a index (cl_mem_heterogeneous_intelfpga ∷ mem_flags tag) 0
        (size_in_bytes arg) (keep_ptr index arg.ptr s))
      found
