-- ===== src/Opencl.antt =====
-- The OpenCL library as the program sees it (CL/cl2.hpp, the Xilinx extensions of CL/cl_ext_xilinx.h).
-- It is not part of the repository, so it is a parameter: a function that answers each request, given
-- all requests before it. An object keeps the requests that it has made in `calls`. Handles, sizes,
-- addresses and times are numbers; the null handle and the null pointer are 0.
use fpga_runtime.Common.{Text, ℕ, ◌≡◌, Bool, true, List}
use fpga_runtime.OpenclUtil.{Headers, ClInt, is_success}

-- The bits of a `cl_mem_flags`; the flags are the list of the bits that are set.
pub data MemFlag : Type 0 where
  cl_mem_read_only cl_mem_write_only cl_mem_read_write cl_mem_use_host_ptr : MemFlag
  cl_mem_heterogeneous_intelfpga : MemFlag

-- The bits of a `cl_mem_migration_flags`.
pub data MigrationFlag : Type 0 where
  cl_migrate_mem_object_host : MigrationFlag

pub data ProfilingInfo : Type 0 where
  cl_profiling_command_start cl_profiling_command_end : ProfilingInfo

pub data StreamFlag : Type 0 where
  xcl_stream_read_only xcl_stream_write_only cl_stream_read_only cl_stream_write_only : StreamFlag

pub data Call : Type 0 where
  get_platforms : Call
  get_platform_name get_devices : (platform : ℕ) → Call
  get_device_name : (device : ℕ) → Call
  create_context : (device : ℕ) → Call
  create_command_queue : (context device : ℕ) → Call
  create_program : (context device : ℕ) (binary : Text) → Call
  build_program : (program : ℕ) → Call
  create_kernel : (program : ℕ) (name : Text) → Call
  create_buffer : (context : ℕ) (flags : List MemFlag) (size host_ptr : ℕ) → Call
  set_arg_bytes : (kernel index : ℕ) (bytes : List ℕ) → Call
  set_arg_buffer : (kernel index buffer : ℕ) → Call
  enqueue_nd_range_kernel : (queue kernel : ℕ) (events : List ℕ) → Call
  enqueue_migrate_mem_objects :
      (queue : ℕ) (buffers : List ℕ) (flags : List MigrationFlag) (events : List ℕ) → Call
  enqueue_write_buffer : (queue buffer size host_ptr : ℕ) (events : List ℕ) → Call
  enqueue_read_buffer : (queue buffer size host_ptr : ℕ) (events : List ℕ) → Call
  flush finish : (queue : ℕ) → Call
  get_profiling_info : ProfilingInfo → (event : ℕ) → Call
  get_mem_size : (buffer : ℕ) → Call
  create_stream : (device : ℕ) (flags : StreamFlag) (kernel index : ℕ) → Call
  read_stream write_stream : (stream host_ptr size : ℕ) (eot : Bool) → Call
  release_stream : (stream : ℕ) → Call

-- `value` is the handle, the event or the number that the request asks for, `items` the handles or
-- the bytes of the name, and `statuses` the status of each binary of a program.
pub record Reply : Type 0 where
  pub status : ClInt
  pub value : ℕ
  pub items : List ℕ
  pub statuses : List ClInt

pub record Library : Type 0 where
  pub headers : Headers
  -- whether the macros `XCL_STREAM_WRITE_ONLY` and `XCL_STREAM_READ_ONLY` are defined
  pub has_xcl_write_only : Bool
  pub has_xcl_read_only : Bool
  pub respond : List Call → Call → Reply

-- A library that turns no request down.
abbrev pub Accepts : Library → Type 0
Accepts lib = (before : List Call) (c : Call) → is_success (lib.respond before c).status ≡ true
