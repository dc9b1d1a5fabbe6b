-- ===== src/OpenclDevice.antt =====
-- src/frt/opencl_device.h and src/frt/opencl_device.cpp: what the two OpenCL devices share, but for the
-- times, the byte counts and Initialize, which are in the children Profile and Initialize.
-- A method is an action on the object. `host_ptr_table` is the one field that the derived class
-- `IntelOpenclDevice` adds; `calls` holds the requests that the object has made to the library.
pub mod Initialize
pub mod Kernels
pub mod Directions
pub mod Arguments
pub mod Session
pub mod Safety
pub mod Frames
pub mod Opening
pub mod Blame
pub mod Validity
pub mod Requests
pub mod Launching
pub mod Program
pub mod Profile
pub mod Measures
pub mod Machine
pub mod Selection
pub mod Info
use fpga_runtime.Common.{
  ℕ, suc, ◌+◌, ◌-◌, ◌%◌, ◌^◌, Option, none, some, List, [], ◌∷◌, ◌++◌, map, length, set, resize,
  ltb, ◌||◌, if◌then◌else◌,
}
use fpga_runtime.Common.Eq.{int_Eq}
use fpga_runtime.Common.Int.{ℤ, pos, negsuc, ◌-ℤ◌, ltb_ℤ}
use fpga_runtime.Containers.Maps
use fpga_runtime.Containers.Maps.{Map}
use fpga_runtime.Containers.Sets
use fpga_runtime.Containers.Ordered
use fpga_runtime.Containers.Ordered.{OrderedMap}
use fpga_runtime.Containers.Sort.{sort_by}
use fpga_runtime.Exec.{
  ok, Exec, cl_error, out_of_range, undefined, pure, raise, gets, modify, require, ◌>>=◌, ◌>>◌,
}
use fpga_runtime.OpenclUtil.{ClInt, Place, check_text, is_success, opencl_err_to_string}
use fpga_runtime.Opencl.{
  Library, Call, Reply, MemFlag, ProfilingInfo, cl_mem_read_only, cl_mem_write_only,
  cl_mem_read_write, create_buffer, set_arg_bytes, set_arg_buffer, enqueue_nd_range_kernel, flush,
  finish, get_profiling_info, get_mem_size, cl_profiling_command_start, cl_profiling_command_end,
}
use fpga_runtime.Tag.{Tag, place_holder, read_only, write_only, read_write, tag_eq}
use fpga_runtime.Buffer.{BufferArg, size_in_bytes, size_mod}
use fpga_runtime.ArgInfo.{ArgInfo}

pub record OpenclDevice : Type 0 where
  pub device : ℕ
  pub context : ℕ
  pub cmd : ℕ
  pub program : ℕ
  -- maps the prefix sums of the argument counts to kernels
  pub kernels : OrderedMap ℕ
  pub buffer_table : Map ℤ ℕ
  pub arg_table : Map ℤ ArgInfo
  pub load_indices : List ℤ
  pub store_indices : List ℤ
  pub load_event : List ℕ
  pub compute_event : List ℕ
  pub store_event : List ℕ
  pub host_ptr_table : Map ℤ ℕ
  pub calls : List Call

abbrev pub Method : Type 0 → Type 0
Method A = Exec OpenclDevice A

-- An `int` converted to the `cl_uint` of an argument's index.
abbrev pub to_cl_uint : ℤ → ℕ
to_cl_uint (pos n) = n % 2 ^ 32
to_cl_uint (negsuc n) = 2 ^ 32 - 1 - n % 2 ^ 32

-- A null `cl::Event`, as `resize` makes them.
abbrev pub null_event : ℕ
null_event = 0

-- An entry of the table, as `GetKernel` returns it.
abbrev pub kernel_at : ℤ → Option (ℤ × ℕ) → Option (ℤ × ℕ)
kernel_at index none = none
kernel_at index (some (first, kernel)) = some (index -ℤ first, kernel)

-- `GetKernel`, whose `std::prev` has nothing to return below the first key
unfoldable pub get_kernel : OrderedMap ℕ → ℤ → Option (ℤ × ℕ)
get_kernel kernels index =
    kernel_at index (Ordered.at_prev kernels (Ordered.upper_bound index kernels))

-- The `switch` of `SetBufferArg`.
unfoldable pub mem_flags : Tag → List MemFlag
mem_flags place_holder = []
mem_flags read_only = cl_mem_read_only ∷ []
mem_flags write_only = cl_mem_write_only ∷ []
mem_flags read_write = cl_mem_read_write ∷ []

-- A handle or an address, null where there is none.
abbrev pub or_null : Option ℕ → ℕ
or_null none = 0
or_null (some x) = x

abbrev pub push_buffer : Option ℕ → Option (List ℕ) → Option (List ℕ)
push_buffer none buffers = none
push_buffer (some buffer) none = none
push_buffer (some buffer) (some buffers) = some (buffer ∷ buffers)

-- `for (auto index : indices) buffers.push_back(buffer_table_.at(index));`
unfoldable pub buffers_at : Map ℤ ℕ → List ℤ → Option (List ℕ)
buffers_at table [] = some []
buffers_at table (index ∷ rest) = push_buffer (Maps.lookup index table) (buffers_at table rest)

unfoldable pub get_load_buffers : Method (List ℕ)
get_load_buffers s = require out_of_range (buffers_at s.buffer_table s.load_indices) s

unfoldable pub get_store_buffers : Method (List ℕ)
get_store_buffers s = require out_of_range (buffers_at s.buffer_table s.store_indices) s

unfoldable pub get_args_info : OpenclDevice → List ArgInfo
get_args_info s = sort_by (λ a. a.index) (map (λ e. e.1) s.arg_table)

-- The count of `SuspendBuffer` is the number of the transfers that stop.
unfoldable pub suspend_buffer : ℤ → Method ℕ
suspend_buffer index s = (
  ok (Sets.erase_count index s.load_indices + Sets.erase_count index s.store_indices),
  record s {
    load_indices = Sets.erase index s.load_indices;
    store_indices = Sets.erase index s.store_indices;
  },
)

-- The two tests of `SetBufferArg` on its tag.
unfoldable pub mark_direction : ℤ → Tag → OpenclDevice → OpenclDevice
mark_direction index tag s = record s {
  store_indices =
      if tag_eq tag read_only || tag_eq tag read_write
      then Sets.insert index s.store_indices
      else s.store_indices;
  load_indices =
      if tag_eq tag write_only || tag_eq tag read_write
      then Sets.insert index s.load_indices
      else s.load_indices;
}

-- A line of opencl_device.cpp.
abbrev pub here : ℕ → Place
here n = record { file = "src/frt/opencl_device.cpp"; line = n }

module _ (lib : Library) where
  -- A request whose status nobody reads.
  unfoldable pub request : Call → Method Reply
  request c s = (ok (lib.respond s.calls c), record s { calls = s.calls ++ c ∷ [] })

  unfoldable pub cl_check : Place → ClInt → Method (Unit {0})
  cl_check at status =
      if is_success status
      then pure tt
      else raise (cl_error (check_text at (opencl_err_to_string lib.headers status)))

  -- A request under `CL_CHECK`, for what it returns.
  unfoldable pub checked : Place → Call → Method ℕ
  unfolding request cl_check
  checked at c = do reply ← request c; cl_check at reply.status; pure reply.value

  -- `OpenclDevice::CreateBuffer`
  unfoldable pub create_buffer_base : ℤ → List MemFlag → ℕ → ℕ → Method ℕ
  create_buffer_base index flags host_ptr size = do
    context ← gets (λ s. s.context)
    buffer ← checked (here 213) (create_buffer context flags size host_ptr)
    modify (λ s. record s { buffer_table = Maps.assign index buffer s.buffer_table })
    pure buffer

  unfoldable pub set_scalar_arg : ℤ → List ℕ → Method (Unit {0})
  set_scalar_arg index arg = do
    kernels ← gets (λ s. s.kernels)
    (i, kernel) ← require undefined (get_kernel kernels index)
    request (set_arg_bytes kernel (to_cl_uint i) arg)
    pure tt

  -- `create` is the virtual `CreateBuffer` of the object's class.
  unfoldable pub set_buffer_arg :
      (create : ℤ → List MemFlag → ℕ → ℕ → Method ℕ) → ℤ → Tag → BufferArg → Method (Unit {0})
  set_buffer_arg create index tag arg = do
    buffer ← create index (mem_flags tag) arg.ptr (size_in_bytes arg)
    modify (mark_direction index tag)
    kernels ← gets (λ s. s.kernels)
    (i, kernel) ← require undefined (get_kernel kernels index)
    request (set_arg_buffer kernel (to_cl_uint i) buffer)
    pure tt

  -- The loop of `Exec`, from its round `i` on.
  unfoldable pub launch : ℕ → OrderedMap ℕ → Method (Unit {0})
  launch i [] = pure tt
  launch i ((first, kernel) ∷ rest) =
      let go_on = launch (suc i) rest in
      do
        cmd ← gets (λ s. s.cmd)
        events ← gets (λ s. s.load_event)
        event ← checked (here 90) (enqueue_nd_range_kernel cmd kernel events)
        modify (λ s. record s { compute_event = set s.compute_event i event })
        go_on

  unfoldable pub exec : Method (Unit {0})
  exec = do
    modify (λ s. record s { compute_event = resize (length s.kernels) null_event s.compute_event })
    kernels ← gets (λ s. s.kernels)
    launch 0 kernels

  -- `OpenclDevice::Finish`
  unfoldable pub finish_queue : Method (Unit {0})
  finish_queue = do
    cmd ← gets (λ s. s.cmd)
    checked (here 98) (flush cmd)
    checked (here 99) (finish cmd)
    pure tt
