-- ===== src/Streams/Transfers.antt =====
-- Reading and writing an attached stream.
use native.Mathlib.Nat.{mod-eq_of_lt}
use fpga_runtime.Common.{ℕ, ◌*◌, ◌<◌, ◌≡◌, ◌≢◌, refl, Bool, false, some, [], ◌∷◌, nat_eq, arith}
use fpga_runtime.Exec.{pure}
use fpga_runtime.Buffer.{size_mod}
use fpga_runtime.Opencl.{Library, read_stream, write_stream}
use fpga_runtime.Streams.{
  XilinxOpenclStream, wrapper_read, wrapper_write, stream_read, stream_write, at_line,
}
use fpga_runtime.OpenclDevice.{OpenclDevice}
use fpga_runtime.OpenclDevice.Requests.{outcome, issue, checked-issues}

module _ (lib : Library) where
  -- Where the handle is not null and the byte count fits a `size_t`, a `Read` of a stream asks the
  -- library for exactly `size * sizeof(T)` bytes at the address, a `Write` sends as many, and each
  -- throws if and only if that one request fails.
  pub wrapper-issues :
      (x : XilinxOpenclStream) (elem_size host_ptr size : ℕ) (eot : Bool) (s : OpenclDevice)
      → x.stream ≢ 0
      → size * elem_size < size_mod
      → (outcome (wrapper_read lib (some x) elem_size host_ptr size eot s)
          ≡ issue lib
              (at_line 81)
              s.calls
              (read_stream x.stream host_ptr (size * elem_size) eot ∷ []))
        × (outcome (wrapper_write lib (some x) elem_size host_ptr size eot s)
            ≡ issue lib
                (at_line 95)
                s.calls
                (write_stream x.stream host_ptr (size * elem_size) eot ∷ []))
  unfolding wrapper_read wrapper_write stream_read stream_write issue
  wrapper-issues x elem_size host_ptr size eot s there fits =
      let full : nat_eq x.stream 0 ≡ false = ground arith in
      rw (mod-eq_of_lt fits, full)
        (
          checked-issues lib _ (read_stream x.stream host_ptr (size * elem_size) eot) (λ _. pure tt)
              [] s refl,
          checked-issues lib _ (write_stream x.stream host_ptr (size * elem_size) eot)
              (λ _. pure tt) [] s refl,
        )
