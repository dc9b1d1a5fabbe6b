-- ===== src/OpenclDevice/Arguments.antt =====
-- `SetScalarArg` and `SetBufferArg`, with a library that turns nothing down.
use fpga_runtime.Common.{ℕ, ◌≡◌, none, some, List, [], ◌∷◌, ◌++◌}
use fpga_runtime.Common.Eq.{int_Eq}
use fpga_runtime.Common.Int.{ℤ}
use fpga_runtime.Containers.Maps
use fpga_runtime.Exec.{ok, err, undefined}
use fpga_runtime.Opencl.{Library, MemFlag, Accepts, create_buffer, set_arg_bytes, set_arg_buffer}
use fpga_runtime.Tag.{Tag}
use fpga_runtime.Buffer.{BufferArg, size_in_bytes}
use fpga_runtime.OpenclDevice.{
  OpenclDevice, Method, to_cl_uint, get_kernel, mem_flags, mark_direction, request,
  create_buffer_base, set_scalar_arg, set_buffer_arg,
}
use fpga_runtime.OpenclDevice.Requests.{checked_ok}

module _ (lib : Library) where
  -- Where `GetKernel` finds the argument, `SetScalarArg` returns, and all it does is to hand the bytes
  -- to that kernel under the argument's number there; where it finds none, the behaviour is undefined.
  pub set_scalar_arg_lem :
      (index : ℤ) (arg : List ℕ) (s : OpenclDevice)
      → ((i : ℤ) (kernel : ℕ)
          → get_kernel s.kernels index ≡ some (i, kernel)
          → set_scalar_arg lib index arg s
            ≡ (ok tt, record s { calls = s.calls ++ set_arg_bytes kernel (to_cl_uint i) arg ∷ [] }))
        × (get_kernel s.kernels index ≡ none → set_scalar_arg lib index arg s ≡ (err undefined, s))
  unfolding set_scalar_arg request
  set_scalar_arg_lem index arg s = (λ i kernel e. rw e, λ e. rw e)

  -- The object after a buffer was made with `flags` and `host_ptr`.
  abbrev pub with_buffer : ℤ → List MemFlag → ℕ → ℕ → OpenclDevice → OpenclDevice
  with_buffer index flags host_ptr size s =
      let c = create_buffer s.context flags size host_ptr in
      record s {
        buffer_table = Maps.assign index (lib.respond s.calls c).value s.buffer_table;
        calls = s.calls ++ c ∷ [];
      }

  pub create_buffer_base_lem :
      Accepts lib
      → (index : ℤ) (flags : List MemFlag) (host_ptr size : ℕ) (s : OpenclDevice)
      → create_buffer_base lib index flags host_ptr size s ≡ (
        ok (lib.respond s.calls (create_buffer s.context flags size host_ptr)).value,
        with_buffer index flags host_ptr size s,
      )
  unfolding create_buffer_base
  create_buffer_base_lem a index flags host_ptr size s =
      let c = create_buffer s.context flags size host_ptr in rw (checked_ok lib _ c s (a s.calls c))

  pub set_buffer_arg_lem :
      (create : ℤ → List MemFlag → ℕ → ℕ → Method ℕ) (index : ℤ) (tag : Tag) (arg : BufferArg)
      (s t : OpenclDevice) (buffer : ℕ) (i : ℤ) (kernel : ℕ)
      → create index (mem_flags tag) arg.ptr (size_in_bytes arg) s ≡ (ok buffer, t)
      → get_kernel (mark_direction index tag t).kernels index ≡ some (i, kernel)
      → set_buffer_arg lib create index tag arg s ≡ (
        ok tt,
        record (mark_direction index tag t) {
          calls =
              (mark_direction index tag t).calls
              ++ set_arg_buffer kernel (to_cl_uint i) buffer ∷ [];
        },
      )
  unfolding set_buffer_arg request
  set_buffer_arg_lem create index tag arg s t buffer i kernel e found = rw (e, found)
