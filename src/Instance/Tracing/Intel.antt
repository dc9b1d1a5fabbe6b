-- ===== src/Instance/Tracing/Intel.antt =====
-- `Instance::Invoke` on an Intel device: the arguments.
pub mod Invoking
use mathlib.Core.List.{append-nil, append_assoc}
use fpga_runtime.Common.{
  ℕ, ◌+◌, ◌<◌, ◌≡◌, refl, some, Bool, Bool-cases, inl, inr, true, false, List, [], ◌∷◌, ◌++◌,
  length, arith, codes,
}
use fpga_runtime.Common.Eq.{int_Eq}
use fpga_runtime.Common.Int.{ℤ, pos}
use fpga_runtime.Containers.Maps
use fpga_runtime.Containers.Maps.{Map, has_key-assign_self}
use fpga_runtime.Containers.Sets.{contains, contains-head, contains-tail}
use fpga_runtime.Exec.{Result, ok, err, Error, runtime_error, ◌>>=◌}
use fpga_runtime.Opencl.{Library, Call, Accepts, cl_mem_heterogeneous_intelfpga, create_buffer}
use fpga_runtime.Tag.{Tag, tag_eq-is_load, tag_eq-is_store}
use fpga_runtime.Buffer.{Buffer, buffer_arg, size_in_bytes}
use fpga_runtime.OpenclDevice.{OpenclDevice, Method, get_kernel, mem_flags, mark_direction}
use fpga_runtime.OpenclDevice.Arguments.{set_scalar_arg_lem}
use fpga_runtime.OpenclDevice.Validity.{
  IsValid, Tables, Backed, mark_direction-IsValid, assign-IsValid,
}
use fpga_runtime.IntelDevice.{set_stream_arg}
use fpga_runtime.IntelDevice.Arguments.{set_buffer_intel_lem}
use fpga_runtime.IntelDevice.Transfers.{HasEntries}
use fpga_runtime.Instance.{
  Arg, scalar, buffer, stream, intel_device, set_arg, set_args, has_stream, is_stream,
}
use fpga_runtime.Instance.Tracing.{
  arg_marks, args_marks, arg_calls, arg_buffers, args_calls, args_buffers, attached_arg, changed,
  Places,
}

-- The request for a buffer with memory of its own.
abbrev pub device_buffer : ℕ → Buffer → Call
device_buffer context b =
    create_buffer context (cl_mem_heterogeneous_intelfpga ∷ mem_flags b.tag)
      (size_in_bytes (buffer_arg b)) 0

-- The host addresses after an argument, and after a row of them.
abbrev pub arg_ptrs : ℕ → Arg → Map ℤ ℕ → Map ℤ ℕ
arg_ptrs n (buffer b) table = Maps.assign (pos n) (buffer_arg b).ptr table
arg_ptrs n _ table = table

abbrev pub args_ptrs : ℕ → List Arg → Map ℤ ℕ → Map ℤ ℕ
args_ptrs n [] table = table
args_ptrs n (arg ∷ rest) table = args_ptrs (n + 1) rest (arg_ptrs n arg table)

-- Every index that is marked has a buffer and a host address.
abbrev pub IsBacked : OpenclDevice → Type 0
IsBacked s = IsValid s × Tables s.host_ptr_table s.load_indices s.store_indices

marked-IsValid :
    (index : ℤ) (tag : Tag) (v : ℕ) (s : OpenclDevice)
    → IsValid s
    → IsValid
        (mark_direction index tag (record s { buffer_table = Maps.assign index v s.buffer_table }))
marked-IsValid index tag v s valid =
    mark_direction-IsValid index tag _ (has_key-assign_self index v s.buffer_table)
      (assign-IsValid index v s valid)

-- A method that throws is not gone on with.
pub throwing :
    {A B : Type 0} (m : Method A) (f : A → Method B) (s : OpenclDevice) (e : Error)
    → (m s).0 ≡ err e
    → ((m >>= f) s).0 ≡ err e
throwing m f s e h = rw h refl

module _ (lib : Library) (place : ℕ → ℤ × ℕ) where
  -- The object after a row of arguments from a number on.
  abbrev pub placed_intel : ℕ → List Arg → OpenclDevice → OpenclDevice
  placed_intel n args s =
      record (changed
        (args_buffers lib place (device_buffer s.context) s.device s.calls n args s.buffer_table)
        (args_marks n args (s.load_indices, s.store_indices))
        (args_calls lib place (device_buffer s.context) s.device s.calls n args) s) {
          host_ptr_table = args_ptrs n args s.host_ptr_table;
        }

  abbrev placed_arg : ℕ → Arg → OpenclDevice → OpenclDevice
  placed_arg n arg s =
      record (changed
        (arg_buffers lib place (device_buffer s.context) s.device s.calls n arg s.buffer_table)
        (arg_marks n arg (s.load_indices, s.store_indices))
        (arg_calls lib place (device_buffer s.context) s.device s.calls n arg) s) {
          host_ptr_table = arg_ptrs n arg s.host_ptr_table;
        }

  placed_arg-IsBacked :
      (n : ℕ) (arg : Arg) (s : OpenclDevice) → IsBacked s → IsBacked (placed_arg n arg s)
  unfolding mark_direction
  placed_arg-IsBacked n (scalar bytes) s v = v
  placed_arg-IsBacked n (stream tag w) s v = v
  placed_arg-IsBacked n (buffer b) s v =
      rw (← tag_eq-is_load b.tag, ← tag_eq-is_store b.tag)
        (
          marked-IsValid (pos n) b.tag (lib.respond s.calls (device_buffer s.context b)).value s
              v.0,
          marked-IsValid (pos n) b.tag (buffer_arg b).ptr
              (record s { buffer_table = s.host_ptr_table }) v.1,
        )

  pub placed_intel-IsBacked :
      (n : ℕ) (args : List Arg) (s : OpenclDevice) → IsBacked s → IsBacked (placed_intel n args s)
  placed_intel-IsBacked n [] s v = v
  placed_intel-IsBacked n (arg ∷ rest) s v =
      placed_intel-IsBacked (n + 1) rest (placed_arg n arg s) (placed_arg-IsBacked n arg s v)

  module _ (a : Accepts lib) where
    set_arg-placed_intel :
        (n : ℕ) (arg : Arg) (s : OpenclDevice)
        → get_kernel s.kernels (pos n) ≡ some (place n)
        → is_stream arg ≡ false
        → set_arg (intel_device lib) n arg s ≡ (ok arg, placed_arg n arg s)
    unfolding set_arg intel_device mark_direction is_stream
    set_arg-placed_intel n (scalar bytes) s found h =
        rw ((set_scalar_arg_lem lib (pos n) bytes s).0 (place n).0 (place n).1 found) refl
    set_arg-placed_intel n (buffer b) s found h =
        rw (set_buffer_intel_lem lib (pos n) b.tag (buffer_arg b) s (place n).0 (place n).1 a found)
          (rw (append_assoc, tag_eq-is_load b.tag, tag_eq-is_store b.tag))
    set_arg-placed_intel n (stream tag w) s found h = cc

    pub set_args-placed_intel :
        (n : ℕ) (args : List Arg) (s : OpenclDevice)
        → Places lib place s.kernels n (n + length args)
        → has_stream args ≡ false
        → set_args (intel_device lib) n args s ≡ (ok args, placed_intel n args s)
    unfolding set_args has_stream
    set_args-placed_intel n [] s found h = rw append-nil
    set_args-placed_intel n (arg ∷ rest) s found h =
        rw
          (
            set_arg-placed_intel n arg s (found n (omega arith) (omega arith)) (ground arith),
            set_args-placed_intel (n + 1) rest (placed_arg n arg s)
                (λ i l u. found i (omega arith) (omega arith)) (ground arith),
          )
          (rw append_assoc)

    set_stream-error :
        (n : ℕ) (arg : Arg) (s : OpenclDevice)
        → is_stream arg ≡ true
        → (set_arg (intel_device lib) n arg s).0
          ≡ err (runtime_error (codes "Intel OpenCL device does not support streaming"))
    unfolding set_arg intel_device set_stream_arg is_stream
    set_stream-error n (scalar bytes) s h = cc
    set_stream-error n (buffer b) s h = cc
    set_stream-error n (stream tag w) s h = refl

    pub set_args-error :
        (n : ℕ) (args : List Arg) (s : OpenclDevice)
        → Places lib place s.kernels n (n + length args)
        → has_stream args ≡ true
        → (set_args (intel_device lib) n args s).0
          ≡ err (runtime_error (codes "Intel OpenCL device does not support streaming"))
    unfolding set_args has_stream
    set_args-error n [] s found h = cc
    set_args-error n (arg ∷ rest) s found h = elim (Bool-cases (is_stream arg)) [
      | inl e ↦ throwing (set_arg (intel_device lib) n arg) _ s _ (set_stream-error n arg s e)
      | inr e ↦ rw (set_arg-placed_intel n arg s (found n (omega arith) (omega arith)) e) (
          throwing (set_args (intel_device lib) (n + 1) rest) _ (placed_arg n arg s) _ (
            set_args-error (n + 1) rest (placed_arg n arg s)
              (λ i l u. found i (omega arith) (omega arith)) (ground arith)))
    ]
