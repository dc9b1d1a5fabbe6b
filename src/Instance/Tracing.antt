-- ===== src/Instance/Tracing.antt =====
-- The arguments of `Instance::Invoke` on a Xilinx device: what each of them adds to the object.
pub mod Invoking
pub mod Intel
use mathlib.Core.List.{append-nil, append_assoc}
use fpga_runtime.Common.{
  ℕ, ◌+◌, ◌≤◌, ◌<◌, ◌≡◌, refl, Option, none, some, List, [], ◌∷◌, ◌++◌, length, arith,
}
use fpga_runtime.Common.Eq.{int_Eq}
use fpga_runtime.Common.Int.{ℤ, pos}
use fpga_runtime.Containers.Maps
use fpga_runtime.Containers.Maps.{Map}
use fpga_runtime.Containers.Ordered.{OrderedMap}
use fpga_runtime.Exec.{ok}
use fpga_runtime.Opencl.{
  Library, Call, Accepts, StreamFlag, cl_mem_use_host_ptr, create_buffer, create_stream,
  set_arg_bytes, set_arg_buffer,
}
use fpga_runtime.Tag.{
  Tag, place_holder, read_only, write_only, read_write, tag_eq-is_load, tag_eq-is_store,
}
use fpga_runtime.Buffer.{Buffer, buffer_arg, size_in_bytes}
use fpga_runtime.Streams.{StreamWrapper, stream_flags}
use fpga_runtime.OpenclDevice.{OpenclDevice, get_kernel, to_cl_uint, mem_flags, mark_direction}
use fpga_runtime.OpenclDevice.Arguments.{set_scalar_arg_lem}
use fpga_runtime.XilinxDevice.Arguments.{set_buffer_lem}
use fpga_runtime.XilinxDevice.StreamArguments.{attached, release_calls, set_stream_arg_lem}
use fpga_runtime.Instance.{Arg, scalar, buffer, stream, xilinx_device, set_arg, set_args}
use fpga_runtime.Instance.Returning.{IsTyped, AllTyped}
use fpga_runtime.Instance.Marks.{Marks, marked}

-- The two sets after an argument.
abbrev pub arg_marks : ℕ → Arg → Marks → Marks
arg_marks n (buffer b) m = marked (pos n) b.tag m
arg_marks n _ m = m

-- Those after a row of arguments, from a number on.
abbrev pub args_marks : ℕ → List Arg → Marks → Marks
args_marks n [] m = m
args_marks n (arg ∷ rest) m = args_marks (n + 1) rest (arg_marks n arg m)

-- The request for a buffer over the host's memory.
abbrev pub host_buffer : ℕ → Buffer → Call
host_buffer context b =
    let arg = buffer_arg b in
    create_buffer context (cl_mem_use_host_ptr ∷ mem_flags b.tag) (size_in_bytes arg) arg.ptr

-- Each argument number has a kernel and a number in it, and each buffer a request.
module _ (lib : Library) (place : ℕ → ℤ × ℕ) (buffer_request : Buffer → Call) (device : ℕ) where
  abbrev pub stream_requests : Option StreamFlag → ℕ → List Call
  stream_requests none n = []
  stream_requests (some flags) n =
      create_stream device flags (place n).1 (to_cl_uint (place n).0) ∷ []

  -- The requests for an argument.
  abbrev pub arg_calls : List Call → ℕ → Arg → List Call
  arg_calls before n (scalar bytes) = set_arg_bytes (place n).1 (to_cl_uint (place n).0) bytes ∷ []
  arg_calls before n (buffer b) =
      let c = buffer_request b in
      c ∷ set_arg_buffer (place n).1 (to_cl_uint (place n).0) (lib.respond before c).value ∷ []
  arg_calls before n (stream tag w) =
      stream_requests (stream_flags lib tag) n ++ release_calls w.stream

  -- The buffers after an argument.
  abbrev pub arg_buffers : List Call → ℕ → Arg → Map ℤ ℕ → Map ℤ ℕ
  arg_buffers before n (buffer b) table =
      Maps.assign (pos n) (lib.respond before (buffer_request b)).value table
  arg_buffers before n _ table = table

  -- The wrapper with the stream that was opened, if any.
  abbrev pub opened_stream : List Call → Option StreamFlag → ℕ → StreamWrapper → StreamWrapper
  opened_stream before none n w = w
  opened_stream before (some flags) n w =
      let c = create_stream device flags (place n).1 (to_cl_uint (place n).0) in
      attached w (lib.respond before c).value (place n).1 device

  abbrev pub attached_arg : List Call → ℕ → Arg → Arg
  attached_arg before n (stream tag w) =
      stream tag (opened_stream before (stream_flags lib tag) n w)
  attached_arg before n arg = arg

  -- The same for a row of arguments, from a number on.
  abbrev pub args_calls : List Call → ℕ → List Arg → List Call
  args_calls before n [] = []
  args_calls before n (arg ∷ rest) =
      let cs = arg_calls before n arg in cs ++ args_calls (before ++ cs) (n + 1) rest

  abbrev pub args_buffers : List Call → ℕ → List Arg → Map ℤ ℕ → Map ℤ ℕ
  args_buffers before n [] table = table
  args_buffers before n (arg ∷ rest) table =
      args_buffers (before ++ arg_calls before n arg) (n + 1) rest (arg_buffers before n arg table)

  abbrev pub attached_args : List Call → ℕ → List Arg → List Arg
  attached_args before n [] = []
  attached_args before n (arg ∷ rest) =
      attached_arg before n arg ∷ attached_args (before ++ arg_calls before n arg) (n + 1) rest

-- The object with new buffers, sets and requests.
abbrev pub changed : Map ℤ ℕ → Marks → List Call → OpenclDevice → OpenclDevice
changed table (loads, stores) cs s = record s {
  buffer_table = table;
  load_indices = loads;
  store_indices = stores;
  calls = s.calls ++ cs;
}

module _ (lib : Library) (place : ℕ → ℤ × ℕ) where
  -- `GetKernel` finds the arguments from `n` up to `end` at their places.
  abbrev pub Places : OrderedMap ℕ → (n end : ℕ) → Type 0
  Places kernels n end = (i : ℕ) → n ≤ i → i < end → get_kernel kernels (pos i) ≡ some (place i)

  -- The object after a row of arguments from a number on.
  abbrev pub placed : ℕ → List Arg → OpenclDevice → OpenclDevice
  placed n args s =
      changed
        (args_buffers lib place (host_buffer s.context) s.device s.calls n args s.buffer_table)
        (args_marks n args (s.load_indices, s.store_indices))
        (args_calls lib place (host_buffer s.context) s.device s.calls n args) s

  abbrev placed_arg : ℕ → Arg → OpenclDevice → OpenclDevice
  placed_arg n arg s =
      changed (arg_buffers lib place (host_buffer s.context) s.device s.calls n arg s.buffer_table)
        (arg_marks n arg (s.load_indices, s.store_indices))
        (arg_calls lib place (host_buffer s.context) s.device s.calls n arg) s

  module _ (a : Accepts lib) where
    set_stream-placed :
        (n : ℕ) (tag : Tag) (w : StreamWrapper) (flags : StreamFlag) (s : OpenclDevice)
        → get_kernel s.kernels (pos n) ≡ some (place n)
        → stream_flags lib tag ≡ some flags
        → set_arg (xilinx_device lib) n (stream tag w) s ≡ (
          ok (attached_arg lib place (host_buffer s.context) s.device s.calls n (stream tag w)),
          placed_arg n (stream tag w) s,
        )
    unfolding set_arg xilinx_device
    set_stream-placed n tag w flags s found e =
        rw (set_stream_arg_lem lib (pos n) tag w s (place n).0 (place n).1 flags a found e, e) refl

    set_arg-placed :
        (n : ℕ) (arg : Arg) (s : OpenclDevice)
        → get_kernel s.kernels (pos n) ≡ some (place n)
        → IsTyped arg
        → set_arg (xilinx_device lib) n arg s ≡ (
          ok (attached_arg lib place (host_buffer s.context) s.device s.calls n arg),
          placed_arg n arg s,
        )
    unfolding set_arg xilinx_device stream_flags mark_direction
    set_arg-placed n (scalar bytes) s found h =
        rw ((set_scalar_arg_lem lib (pos n) bytes s).0 (place n).0 (place n).1 found) refl
    set_arg-placed n (buffer b) s found h =
        rw (set_buffer_lem lib (pos n) b.tag (buffer_arg b) s (place n).0 (place n).1 a found)
          (rw (append_assoc, tag_eq-is_load b.tag, tag_eq-is_store b.tag))
    set_arg-placed n (stream read_only w) s found h = set_stream-placed n read_only w _ s found refl
    set_arg-placed n (stream write_only w) s found h =
        set_stream-placed n write_only w _ s found refl
    set_arg-placed n (stream place_holder w) s found h = absurd h
    set_arg-placed n (stream read_write w) s found h = absurd h

    pub set_args-placed :
        (n : ℕ) (args : List Arg) (s : OpenclDevice)
        → Places s.kernels n (n + length args)
        → AllTyped args
        → set_args (xilinx_device lib) n args s ≡ (
          ok (attached_args lib place (host_buffer s.context) s.device s.calls n args),
          placed n args s,
        )
    unfolding set_args
    set_args-placed n [] s found h = rw append-nil
    set_args-placed n (arg ∷ rest) s found h =
        rw
          (
            set_arg-placed n arg s (found n (omega arith) (omega arith)) h.0,
            set_args-placed (n + 1) rest (placed_arg n arg s)
                (λ i l u. found i (omega arith) (omega arith)) h.1,
          )
          (rw append_assoc)
