-- ===== src/Tests/Measures.antt =====
-- The theorems on the times and the byte counts at concrete devices.
use fpga_runtime.Common.{◌≡◌, [], ◌∷◌, ◌++◌, ◌%◌, ◌^◌, map}
use fpga_runtime.Common.Eq.{int_Eq}
use fpga_runtime.Common.Int.{ℤ, pos, ◌-ℤ◌}
use fpga_runtime.Exec.{ok}
use fpga_runtime.Opencl.{cl_profiling_command_start, cl_profiling_command_end}
use fpga_runtime.OpenclDevice.Profile.{span, load_bytes, store_bytes}
use fpga_runtime.OpenclDevice.Measures.{IsGreatest, IsLeast}
use fpga_runtime.OpenclDevice.Measures.Times.{time_calls, times_of, int64_or_undefined, span_lem}
use fpga_runtime.OpenclDevice.Measures.Bytes.{total_size, size_calls, bytes_lem}
use fpga_runtime.OpenclDevice.Validity.{buffer_of}
use fpga_runtime.Tests.{counting, counting-Accepts, running}
use fpga_runtime.Tests.Devices.{running-IsValid}

span_example :
    let ends = time_calls cl_profiling_command_end (7 ∷ 8 ∷ []) in
    let starts = time_calls cl_profiling_command_start (7 ∷ 8 ∷ []) in
    (end : ℤ) × (start : ℤ) × IsGreatest end
      (times_of counting cl_profiling_command_end [] (7 ∷ 8 ∷ []))
    × IsLeast start (times_of counting cl_profiling_command_start ([] ++ ends) (7 ∷ 8 ∷ []))
    × (span counting (7 ∷ 8 ∷ []) running
        ≡ (int64_or_undefined (end -ℤ start), record running { calls = ([] ++ ends) ++ starts }))
span_example = span_lem counting counting-Accepts 7 (8 ∷ []) running

bytes_example :
    let loads = map (buffer_of running.buffer_table) (pos 0 ∷ []) in
    let stores = map (buffer_of running.buffer_table) (pos 2 ∷ pos 0 ∷ []) in
    (load_bytes counting running ≡ (
      ok (total_size counting [] loads % 2 ^ 64),
      record running { calls = [] ++ size_calls counting loads },
    ))
    × (store_bytes counting running ≡ (
      ok (total_size counting [] stores % 2 ^ 64),
      record running { calls = [] ++ size_calls counting stores },
    ))
bytes_example = bytes_lem counting counting-Accepts running running-IsValid
