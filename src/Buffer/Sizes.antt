-- ===== src/Buffer/Sizes.antt =====
-- The byte counts that a buffer passes to the devices, on both sides of `size_t` overflow.
use native.Mathlib.Nat.{
  mod-eq_of_lt, mod-lt, mod-le, mod-add-div, mul-div_cancel, mul-div-le, mul_comm,
}
use fpga_runtime.Common.{◌*◌, ◌/◌, ◌%◌, ◌≤◌, ◌<◌, ◌≡◌, ◌+◌, refl, arith}
use fpga_runtime.Buffer.{Buffer, size_mod, buffer_bytes, buffer_arg, size_in_count, size_in_bytes}

-- The bytes of an argument are the whole elements that fit in the buffer's bytes.
pub size_in_bytes-buffer_arg :
    (b : Buffer) → size_in_bytes (buffer_arg b) ≡ b.elem_size * (buffer_bytes b / b.elem_size)
unfolding buffer_arg size_in_bytes buffer_bytes
size_in_bytes-buffer_arg b =
    let bytes = b.n * b.elem_size % size_mod in
    mod-eq_of_lt (omega (arith, mul-div-le bytes b.elem_size))

buffer_bytes-div :
    (b : Buffer)
    → 0 < b.elem_size
    → b.n * b.elem_size < size_mod
    → buffer_bytes b / b.elem_size ≡ b.n
unfolding buffer_bytes
buffer_bytes-div b pos fits = rw (mod-eq_of_lt fits) (mul-div_cancel b.n pos)

-- A buffer whose `n * sizeof(T)` fits a `size_t`, with `sizeof(T)` not zero, becomes an argument with
-- the same address, `n` elements and exactly `n * sizeof(T)` bytes.
pub buffer_arg_sizes :
    (b : Buffer)
    → 0 < b.elem_size
    → b.n * b.elem_size < size_mod
    → ((buffer_arg b).ptr ≡ b.ptr)
      × (size_in_count (buffer_arg b) ≡ b.n)
      × (size_in_bytes (buffer_arg b) ≡ b.n * b.elem_size)
buffer_arg_sizes b pos fits = (
  unfold buffer_arg in refl,
  unfold buffer_arg size_in_count in buffer_bytes-div b pos fits,
  rw (size_in_bytes-buffer_arg b, buffer_bytes-div b pos fits) (mul_comm b.elem_size b.n),
)

-- Whatever the product is, an argument with `sizeof(T)` not zero never covers more bytes than the
-- buffer's own byte count, what it leaves out of those is less than one element, and the count is
-- never more than `n * sizeof(T)`.
pub buffer_arg_covers :
    (b : Buffer)
    → 0 < b.elem_size
    → (size_in_bytes (buffer_arg b) ≤ buffer_bytes b)
      × (buffer_bytes b < size_in_bytes (buffer_arg b) + b.elem_size)
      × (buffer_bytes b ≤ b.n * b.elem_size)
buffer_arg_covers b pos = rw (size_in_bytes-buffer_arg b) (
  mul-div-le (buffer_bytes b) b.elem_size,
  omega (arith, mod-add-div (buffer_bytes b) b.elem_size, mod-lt (buffer_bytes b) pos),
  unfold buffer_bytes in mod-le (b.n * b.elem_size) size_mod,
)
