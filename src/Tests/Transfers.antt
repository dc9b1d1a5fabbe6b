-- ===== src/Tests/Transfers.antt =====
-- The theorems on the transfers of the Intel device at concrete objects.
use fpga_runtime.Common.{◌≡◌, refl, [], ◌∷◌, ◌++◌}
use fpga_runtime.Common.Int.{pos}
use fpga_runtime.Containers.Maps.{has_key}
use fpga_runtime.Exec.{ok}
use fpga_runtime.OpenclUtil.{cl_out_of_resources}
use fpga_runtime.Opencl.{Library}
use fpga_runtime.OpenclDevice.{OpenclDevice}
use fpga_runtime.OpenclDevice.Requests.{outcome}
use fpga_runtime.IntelDevice.{read_from_device}
use fpga_runtime.IntelDevice.Transfers.{HasEntries, read_calls, read_from_device_intel_lem}
use fpga_runtime.Tests.{counting, running}

abbrev intel_running : OpenclDevice
intel_running = record running { host_ptr_table = (pos 0, 4096) ∷ (pos 2, 8192) ∷ [] }

-- A library that turns everything down.
abbrev refusing : Library
refusing = record counting {
  respond =
      λ before c. record { status = cl_out_of_resources; value = 0; items = []; statuses = [] };
}

loads : HasEntries intel_running.buffer_table intel_running.host_ptr_table (pos 0 ∷ [])
unfolding has_key
loads = ((refl, refl), tt)

stores : HasEntries intel_running.buffer_table intel_running.host_ptr_table (pos 2 ∷ pos 0 ∷ [])
unfolding has_key
stores = ((refl, refl), ((refl, refl), tt))

read_from_device_intel_example : outcome (read_from_device refusing intel_running) ≡ (
  ok tt,
  []
      ++ read_calls refusing 3
          (7 ∷ [])
          intel_running.buffer_table
          intel_running.host_ptr_table
          []
          (pos 2 ∷ pos 0 ∷ []),
)
read_from_device_intel_example = read_from_device_intel_lem refusing intel_running stores
