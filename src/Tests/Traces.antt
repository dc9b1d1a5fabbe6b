-- ===== src/Tests/Traces.antt =====
-- The theorems on the requests of `Invoke`, for a program of two kernels and for whole runs.
use fpga_runtime.XilinxDevice.Constructor.Hardware.{target_of}
use fpga_runtime.Common.{
  ◌≡◌, ◌++◌, ◌≤◌, ℕ, length, refl, true, false, ◌||◌, List, [], ◌∷◌, codes, arith,
}
use fpga_runtime.Common.Eq.{int_Eq}
use fpga_runtime.Common.Int.{pos}
use fpga_runtime.Common.Split.{before_first, has_prefix}
use fpga_runtime.XilinxDevice.Environ.{is_empty}
use fpga_runtime.Containers.Maps
use fpga_runtime.Containers.Ordered
use fpga_runtime.Containers.Ordered.{assign_all}
use fpga_runtime.Containers.Sets.{contains}
use fpga_runtime.Exec.{ok, err, runtime_error}
use fpga_runtime.Opencl.{Accepts, flush, finish}
use fpga_runtime.Metadata.Numbering.{kernel_args}
use fpga_runtime.OpenclDevice.{OpenclDevice}
use fpga_runtime.OpenclDevice.Kernels.{starts}
use fpga_runtime.OpenclDevice.Machine.{Machine, Describes, Builds, select, select_device}
use fpga_runtime.OpenclDevice.Requests.{outcome}
use fpga_runtime.XilinxDevice.Constructor.Hardware
use fpga_runtime.IntelDevice.Constructor.Sections
use fpga_runtime.IntelDevice.Constructor.Sections.{file_kernels, file_board, elf_target}
use fpga_runtime.Instance.{
  Arg, scalar, buffer, read_stream, is_elf, xilinx_device, intel_device, invoke, has_stream,
}
use fpga_runtime.Instance.Object.{Runtime, xilinx_object, intel_object, fresh}
use fpga_runtime.Instance.Program.{invoke_bitstream}
use fpga_runtime.Instance.Program.Objects.{found_object, found_kernels}
use fpga_runtime.Instance.Invocation.{loaded, launched, stored, final_requests}
use fpga_runtime.Instance.Tracing.{placed, attached_args, host_buffer}
use fpga_runtime.Instance.Tracing.Invoking.{owner, returned, invoked, invoke-placed}
use fpga_runtime.Instance.Tracing.Intel.{IsBacked, placed_intel}
use fpga_runtime.Instance.Tracing.Intel.Invoking.{
  written, read_back, invoked_intel, invoke-placed_intel, invoke_streams_intel,
}
use fpga_runtime.Instance.Repetition.{invokes, returned_all, invoked_all, invoked_all_intel}
use fpga_runtime.Instance.Program.Repetition.{
  invoke_bitstream-invokes, invoke_bitstream-invokes_intel,
}
use fpga_runtime.Tests.{counting, counting-Accepts, running, floats, adder, idle}
use fpga_runtime.Tests.Bitstreams.{runtime, started, bitstream-xclbin}
use fpga_runtime.Tests.Constructors.{
  listing, listing_of, listing-Accepts, listing-Builds, listing-Describes, machine, core, bitstream,
  hardware-IsHardware, no_mode, selected, elf_file, hardware,
}
use fpga_runtime.Tests.Devices.{running-IsValid}

-- The kernels of `running`, with the numbers of their arguments.
abbrev pub two_kernels : List (ℕ × ℕ)
two_kernels = (10, 2) ∷ (11, 1) ∷ []

pub running-starts : running.kernels ≡ assign_all (starts 0 two_kernels) []
unfolding assign_all Ordered.assign
running-starts = refl

abbrev with_stream : List Arg
with_stream = buffer floats ∷ scalar (6 ∷ 0 ∷ 0 ∷ 0 ∷ []) ∷ read_stream (codes "out") ∷ []

invoke-placed_example :
    let t = stored counting (
      launched counting
        (loaded counting (placed counting (owner two_kernels) 0 with_stream running))) in
    outcome (invoke (xilinx_device counting) with_stream running) ≡ (
      ok (attached_args counting (owner two_kernels) (host_buffer 2) 1 [] 0 with_stream),
      t.calls ++ final_requests counting (has_stream with_stream) 3,
    )
invoke-placed_example =
    invoke-placed counting two_kernels with_stream running counting-Accepts running-IsValid
      running-starts (omega arith) (tt, (tt, (tt, tt)))

-- An object on an Intel device, which knows the hosts' addresses of the two buffers too.
abbrev pub running_intel : OpenclDevice
running_intel = record running { host_ptr_table = (pos 0, 4096) ∷ (pos 2, 8192) ∷ [] }

pub running_intel-IsBacked : IsBacked running_intel
unfolding contains Maps.has_key
running_intel-IsBacked = (
  running-IsValid,
  record {
    load = record { distinct = (refl, tt); backed = λ i h. ground arith };
    store = record { distinct = (refl, (refl, tt)); backed = λ i h. ground arith };
  },
)

abbrev pub without_stream : List Arg
without_stream = buffer floats ∷ scalar (6 ∷ 0 ∷ 0 ∷ 0 ∷ []) ∷ scalar (7 ∷ []) ∷ []

pub no_stream : has_stream without_stream ≡ false
unfolding has_stream
no_stream = refl

some_stream : has_stream with_stream ≡ true
unfolding has_stream
some_stream = refl

invoke-placed_intel_example :
    let t = read_back counting (
      launched counting (
        written counting
          (placed_intel counting (owner two_kernels) 0 without_stream running_intel))) in
    outcome (invoke (intel_device counting) without_stream running_intel)
    ≡ (ok without_stream, t.calls ++ flush 3 ∷ finish 3 ∷ [])
invoke-placed_intel_example =
    invoke-placed_intel counting two_kernels without_stream running_intel counting-Accepts
      running_intel-IsBacked running-starts (omega arith) no_stream

invoke_streams_intel_example :
    (invoke (intel_device counting) with_stream running_intel).0
    ≡ err (runtime_error (codes "Intel OpenCL device does not support streaming"))
invoke_streams_intel_example =
    invoke_streams_intel counting two_kernels with_stream running_intel counting-Accepts
      running-starts (omega arith) some_stream

abbrev two_args : List Arg
two_args = buffer floats ∷ scalar (6 ∷ []) ∷ []

-- Two further runs, of which the first has a stream.
abbrev more_runs : List (List Arg)
more_runs =
    (buffer floats ∷ read_stream (codes "out") ∷ []) ∷ (buffer floats ∷ scalar (7 ∷ []) ∷ []) ∷ []

invoke_bitstream-invokes_example :
    let t = target_of bitstream hardware core in
    let made = found_kernels listing machine t core.kernels 6 in
    let s = found_object listing machine t core.kernels 6 (Hardware.described_by core fresh) in
    let o = invoked listing made two_args s in
    ((invoke_bitstream runtime bitstream bitstream two_args started).0
      ≡ ok (xilinx_object o, returned listing made two_args s))
    × (invokes (xilinx_device listing) more_runs o
        ≡ (ok (returned_all listing made more_runs o), invoked_all listing made more_runs o))
invoke_bitstream-invokes_example =
    invoke_bitstream-invokes runtime machine bitstream bitstream core started 6 two_args more_runs
      listing-Accepts listing-Builds listing-Describes bitstream-xclbin hardware-IsHardware no_mode
      selected (omega arith, (omega arith, (omega arith, tt)))
      ((tt, (tt, tt)), ((tt, (tt, tt)), ((tt, (tt, tt)), tt)))

-- A machine with the board of the ELF file.
abbrev intel_machine : Machine
intel_machine = record {
  platforms = 1 ∷ [];
  platform_name = λ p. codes "Intel(R) FPGA SDK for OpenCL(TM)";
  devices = λ p. 8 ∷ [];
  device_name = λ d. codes "a10 : board";
}

abbrev intel_runtime : Runtime
intel_runtime = record runtime { lib = listing_of intel_machine }

accepts : Accepts intel_runtime.lib
accepts = λ before c. refl

builds : Builds intel_runtime.lib
builds = λ before c. (refl, tt)

describes : Describes intel_runtime.lib intel_machine
describes = λ before. (refl, λ p. refl, λ p. refl, λ d. refl)

elf_file-elf : is_elf elf_file ≡ true
unfolding is_elf
elf_file-elf = refl

elf_file-kernels : file_kernels intel_runtime.lib intel_runtime.elf elf_file ≡ adder ∷ idle ∷ []
unfolding before_first
elf_file-kernels = refl

elf_file_complete :
    (Sections.no_kernel (file_kernels intel_runtime.lib intel_runtime.elf elf_file)
      || is_empty (file_board intel_runtime.lib intel_runtime.elf elf_file))
    ≡ false
unfolding before_first
elf_file_complete = refl

selected_intel :
    select (elf_target intel_runtime.lib intel_runtime.elf elf_file) intel_machine (1 ∷ []) ≡ ok 8
unfolding select select_device has_prefix before_first
selected_intel = refl

two_fit :
    length two_args
    ≤ length (kernel_args (file_kernels intel_runtime.lib intel_runtime.elf elf_file))
unfolding before_first
two_fit = omega arith

no_stream_two : has_stream two_args ≡ false
unfolding has_stream
no_stream_two = refl

invoke_bitstream-invokes_intel_example :
    let lib = intel_runtime.lib in
    let runs = two_args ∷ two_args ∷ [] in
    let t = elf_target lib intel_runtime.elf elf_file in
    let ks = file_kernels lib intel_runtime.elf elf_file in
    let made = found_kernels lib intel_machine t ks 8 in
    let s =
      found_object lib intel_machine t ks 8
        (Sections.described_by lib intel_runtime.elf elf_file fresh) in
    let o = invoked_intel lib made two_args s in
    ((invoke_bitstream intel_runtime elf_file elf_file two_args started).0
      ≡ ok (intel_object o, two_args))
    × (invokes (intel_device lib) runs o ≡ (ok runs, invoked_all_intel lib made runs o))
invoke_bitstream-invokes_intel_example =
    invoke_bitstream-invokes_intel intel_runtime intel_machine elf_file elf_file started 8 two_args
      (two_args ∷ two_args ∷ []) accepts builds describes elf_file-elf refl refl elf_file_complete
      selected_intel (two_fit, (two_fit, (two_fit, tt)))
      (no_stream_two, (no_stream_two, (no_stream_two, tt)))
