-- ===== src/Tests/Streams.antt =====
-- The theorems on streams at concrete objects.
use fpga_runtime.Common.{◌≡◌, refl, true, some, [], ◌∷◌, codes, arith}
use fpga_runtime.Common.Int.{pos, ◌-ℤ◌}
use fpga_runtime.Containers.Ordered
use fpga_runtime.Opencl.{xcl_stream_write_only, read_stream, write_stream}
use fpga_runtime.Tag.{read_only}
use fpga_runtime.Streams.{
  StreamWrapper, XilinxOpenclStream, stream_flags, wrapper_read, wrapper_write, at_line,
}
use fpga_runtime.Streams.Transfers.{wrapper-issues}
use fpga_runtime.OpenclDevice.{get_kernel}
use fpga_runtime.OpenclDevice.Requests.{outcome, issue}
use fpga_runtime.Tests.{counting, running}

-- A stream that was attached before.
abbrev old : XilinxOpenclStream
old = record { name = codes "out"; stream = 55; kernel = 10; device = 1 }

abbrev wrapper : StreamWrapper
wrapper = record { name = codes "out"; stream = some old }

found : get_kernel running.kernels (pos 2) ≡ some (pos 0, 11)
unfolding get_kernel Ordered.at_prev Ordered.upper_bound ◌-ℤ◌
found = refl

flags : stream_flags counting read_only ≡ some xcl_stream_write_only
unfolding stream_flags
flags = refl

wrapper-issues_example :
    (outcome (wrapper_read counting (some old) 4 4096 6 true running)
      ≡ issue counting (at_line 81) [] (read_stream 55 4096 24 true ∷ []))
    × (outcome (wrapper_write counting (some old) 4 4096 6 true running)
        ≡ issue counting (at_line 95) [] (write_stream 55 4096 24 true ∷ []))
wrapper-issues_example =
    wrapper-issues counting old 4 4096 6 true running (omega arith) (omega arith)
