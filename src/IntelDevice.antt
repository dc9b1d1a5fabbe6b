-- ===== src/IntelDevice.antt =====
-- src/frt/intel_opencl_device.h and src/frt/intel_opencl_device.cpp: the buffers, the stream arguments
-- and the transfers; the constructor is in the child Constructor.
pub mod Safety
pub mod Arguments
pub mod Frames
pub mod Blame
pub mod Transfers
pub mod Events
pub mod Constructor
use fpga_runtime.Common.{ℕ, suc, List, [], ◌∷◌, set, resize, length, codes, if◌then◌else◌}
use fpga_runtime.Common.Eq.{int_Eq}
use fpga_runtime.Common.Int.{ℤ}
use fpga_runtime.Containers.Maps
use fpga_runtime.Containers.Maps.{Map}
use fpga_runtime.Exec.{runtime_error, pure, raise, gets, modify, ◌>>=◌, ◌>>◌}
use fpga_runtime.OpenclUtil.{ClInt, is_success}
use fpga_runtime.Opencl.{
  Library, MemFlag, cl_mem_heterogeneous_intelfpga, enqueue_write_buffer, enqueue_read_buffer,
  get_mem_size,
}
use fpga_runtime.Tag.{Tag}
use fpga_runtime.Buffer.{BufferArg}
use fpga_runtime.Streams.{StreamWrapper}
use fpga_runtime.OpenclDevice.{
  or_null, OpenclDevice, Method, null_event, request, checked, create_buffer_base, set_buffer_arg,
}

-- `table[index]` of a table of handles or addresses, which makes a null entry where none is.
unfoldable pub entry : ℤ → Map ℤ ℕ → ℕ
entry index table = or_null (Maps.lookup index table)

unfoldable pub touch : ℤ → Map ℤ ℕ → Map ℤ ℕ
touch index table = Maps.insert index 0 table

-- The two table look-ups of a round.
unfoldable touch_tables : ℤ → OpenclDevice → OpenclDevice
touch_tables index s = record s {
  buffer_table = touch index s.buffer_table;
  host_ptr_table = touch index s.host_ptr_table;
}

-- An event that the library sets where it accepts the request.
abbrev pub store_if_accepted : ClInt → ℕ → ℕ → OpenclDevice → OpenclDevice
store_if_accepted status i event s =
    if is_success status then record s { store_event = set s.store_event i event } else s

module _ (lib : Library) where
  -- `IntelOpenclDevice::CreateBuffer`: the address is kept back.
  unfoldable pub create_buffer : ℤ → List MemFlag → ℕ → ℕ → Method ℕ
  unfolding create_buffer_base
  create_buffer index flags host_ptr size = do
    modify (λ s. record s { host_ptr_table = Maps.assign index host_ptr s.host_ptr_table })
    create_buffer_base lib index (cl_mem_heterogeneous_intelfpga ∷ flags) 0 size

  unfoldable pub set_buffer : ℤ → Tag → BufferArg → Method (Unit {0})
  unfolding set_buffer_arg
  set_buffer = set_buffer_arg lib create_buffer

  unfoldable pub set_stream_arg : ℤ → Tag → StreamWrapper → Method StreamWrapper
  set_stream_arg index tag arg =
      raise (runtime_error (codes "Intel OpenCL device does not support streaming"))

  -- The loop of `WriteToDevice`, from its round `i` on. The status of `getInfo` is not read.
  unfoldable pub write_from : ℕ → List ℤ → Method (Unit {0})
  unfolding touch_tables entry touch request
  write_from i [] = pure tt
  write_from i (index ∷ rest) =
      let go_on = write_from (suc i) rest in
      do
        buffer ← gets (λ s. entry index s.buffer_table)
        host_ptr ← gets (λ s. entry index s.host_ptr_table)
        modify (touch_tables index)
        size ← request lib (get_mem_size buffer)
        cmd ← gets (λ s. s.cmd)
        event ←
            checked lib (record { file = "src/frt/intel_opencl_device.cpp"; line = 120 })
              (enqueue_write_buffer cmd buffer size.value host_ptr [])
        modify (λ s. record s { load_event = set s.load_event i event })
        go_on

  unfoldable pub write_to_device : Method (Unit {0})
  write_to_device = do
    modify (λ s. record s { load_event = resize (length s.load_indices) null_event s.load_event })
    indices ← gets (λ s. s.load_indices)
    write_from 0 indices

  -- The loop of `ReadFromDevice`, which reads no status at all.
  unfoldable pub read_from : ℕ → List ℤ → Method (Unit {0})
  unfolding touch_tables entry touch request
  read_from i [] = pure tt
  read_from i (index ∷ rest) =
      let go_on = read_from (suc i) rest in
      do
        buffer ← gets (λ s. entry index s.buffer_table)
        host_ptr ← gets (λ s. entry index s.host_ptr_table)
        modify (touch_tables index)
        size ← request lib (get_mem_size buffer)
        cmd ← gets (λ s. s.cmd)
        events ← gets (λ s. s.compute_event)
        reply ← request lib (enqueue_read_buffer cmd buffer size.value host_ptr events)
        modify (store_if_accepted reply.status i reply.value)
        go_on

  unfoldable pub read_from_device : Method (Unit {0})
  read_from_device = do
    modify
        (λ s. record s { store_event = resize (length s.store_indices) null_event s.store_event })
    indices ← gets (λ s. s.store_indices)
    read_from 0 indices
