-- ===== src/Buffer.antt =====
-- src/frt/buffer.h and src/frt/buffer_arg.h. A `Buffer<T, tag>` carries `sizeof(T)` as a field;
-- `size_t` arithmetic is that of 64 bits.
pub mod Sizes
use fpga_runtime.Common.{ℕ, ◌*◌, ◌/◌, ◌%◌, ◌^◌}
use fpga_runtime.Tag.{Tag, place_holder, read_only, write_only, read_write}

abbrev pub size_mod : ℕ
size_mod = 2 ^ 64

pub record Buffer : Type 0 where
  pub ptr : ℕ
  pub n : ℕ
  pub elem_size : ℕ
  pub tag : Tag

-- `Buffer::SizeInBytes`
unfoldable pub buffer_bytes : Buffer → ℕ
buffer_bytes b = b.n * b.elem_size % size_mod

pub record BufferArg : Type 0 where
  pub ptr : ℕ
  pub size : ℕ
  pub n : ℕ

-- The constructor from a `Buffer`.
unfoldable pub buffer_arg : Buffer → BufferArg
unfolding buffer_bytes
buffer_arg b = record { ptr = b.ptr; size = b.elem_size; n = buffer_bytes b / b.elem_size }

unfoldable pub size_in_count : BufferArg → ℕ
size_in_count a = a.n

unfoldable pub size_in_bytes : BufferArg → ℕ
size_in_bytes a = a.size * a.n % size_mod

-- `fpga::ReadOnly(ptr, n)` and its siblings in src/frt.h, at a `T` of `elem_size` bytes.
module _ (elem_size ptr n : ℕ) where
  unfoldable pub read_only_buffer : Buffer
  read_only_buffer = record { ptr = ptr; n = n; elem_size = elem_size; tag = read_only }

  unfoldable pub write_only_buffer : Buffer
  write_only_buffer = record { ptr = ptr; n = n; elem_size = elem_size; tag = write_only }

  unfoldable pub read_write_buffer : Buffer
  read_write_buffer = record { ptr = ptr; n = n; elem_size = elem_size; tag = read_write }

  unfoldable pub placeholder_buffer : Buffer
  placeholder_buffer = record { ptr = ptr; n = n; elem_size = elem_size; tag = place_holder }
