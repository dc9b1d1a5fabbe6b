-- ===== src/XilinxDevice.antt =====
-- src/frt/xilinx_opencl_device.h and src/frt/xilinx_opencl_device.cpp: the buffers, the stream
-- arguments and the transfers; the constructor and `GetEnviron` are in the children.
pub mod Transfers
pub mod Events
pub mod Frames
pub mod Blame
pub mod Arguments
pub mod StreamArguments
pub mod Safety
pub mod Environ
pub mod Constructor
use fpga_runtime.OpenclUtil.{Place}
use fpga_runtime.Common.{ℕ, List, [], ◌∷◌, set, resize}
use fpga_runtime.Common.Int.{ℤ}
use fpga_runtime.Exec.{undefined, gets, modify, require, ◌>>=◌, ◌>>◌}
use fpga_runtime.Opencl.{
  Library, MemFlag, cl_mem_use_host_ptr, cl_migrate_mem_object_host, enqueue_migrate_mem_objects,
}
use fpga_runtime.Tag.{Tag}
use fpga_runtime.Buffer.{BufferArg}
use fpga_runtime.Streams.{StreamWrapper, new_stream, attach}
use fpga_runtime.OpenclDevice.{
  Method, null_event, get_kernel, get_load_buffers, get_store_buffers, checked, create_buffer_base,
  set_buffer_arg,
}

-- A line of xilinx_opencl_device.cpp.
abbrev pub at_line : ℕ → Place
at_line n = record { file = "src/frt/xilinx_opencl_device.cpp"; line = n }

module _ (lib : Library) where
  -- `XilinxOpenclDevice::CreateBuffer`
  unfoldable pub create_buffer : ℤ → List MemFlag → ℕ → ℕ → Method ℕ
  unfolding create_buffer_base
  create_buffer index flags host_ptr size =
      create_buffer_base lib index (cl_mem_use_host_ptr ∷ flags) host_ptr size

  unfoldable pub set_buffer : ℤ → Tag → BufferArg → Method (Unit {0})
  unfolding set_buffer_arg
  set_buffer = set_buffer_arg lib create_buffer

  unfoldable pub set_stream_arg : ℤ → Tag → StreamWrapper → Method StreamWrapper
  unfolding new_stream attach
  set_stream_arg index tag arg = do
    kernels ← gets (λ s. s.kernels)
    (i, kernel) ← require undefined (get_kernel kernels index)
    device ← gets (λ s. s.device)
    stream ← new_stream lib arg.name device kernel i tag
    attach lib arg stream

  -- `WriteToDevice`, by whether `load_indices_` is empty
  write_at : List ℤ → Method (Unit {0})
  write_at [] = modify (λ s. record s { load_event = [] })
  write_at (index ∷ rest) = do
    modify (λ s. record s { load_event = resize 1 null_event s.load_event })
    buffers ← get_load_buffers
    cmd ← gets (λ s. s.cmd)
    event ← checked lib (at_line 194) (enqueue_migrate_mem_objects cmd buffers [] [])
    modify (λ s. record s { load_event = set s.load_event 0 event })

  unfoldable pub write_to_device : Method (Unit {0})
  unfolding write_at
  write_to_device s = write_at s.load_indices s

  -- `ReadFromDevice`, by whether `store_indices_` is empty
  read_at : List ℤ → Method (Unit {0})
  read_at [] = modify (λ s. record s { store_event = [] })
  read_at (index ∷ rest) = do
    modify (λ s. record s { store_event = resize 1 null_event s.store_event })
    buffers ← get_store_buffers
    cmd ← gets (λ s. s.cmd)
    events ← gets (λ s. s.compute_event)
    event ←
        checked lib (at_line 205)
          (enqueue_migrate_mem_objects cmd buffers (cl_migrate_mem_object_host ∷ []) events)
    modify (λ s. record s { store_event = set s.store_event 0 event })

  unfoldable pub read_from_device : Method (Unit {0})
  unfolding read_at
  read_from_device s = read_at s.store_indices s
