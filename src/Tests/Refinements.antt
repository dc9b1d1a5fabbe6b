-- ===== src/Tests/Refinements.antt =====
-- The theorems on the directions of buffers, for an object of the simulator and objects of the two
-- OpenCL devices.
use fpga_runtime.Common.{◌≡◌, refl, ap, List, [], ◌∷◌, codes, Text, arith}
use fpga_runtime.Common.Eq.{int_Eq}
use fpga_runtime.Common.Int.{pos}
use fpga_runtime.Containers.Sets.{contains}
use fpga_runtime.Exec.{Result, ok}
use fpga_runtime.Opencl.{Call}
use fpga_runtime.Tag.{read_write, write_only}
use fpga_runtime.CosimDevice
use fpga_runtime.CosimDevice.{is_zip}
use fpga_runtime.CosimDevice.Construction.{get_work_directory}
use fpga_runtime.Instance.{Arg, is_xclbin, is_elf, open_bitstream, intel_device, invoke}
use fpga_runtime.Instance.Marks.{
  Directions, Refines, Command, set_buffer, set_scalar, suspend, run, write, read, expect_all,
  directions_of,
}
use fpga_runtime.Instance.Marks.Invoking.{arg_commands}
use fpga_runtime.Instance.Object.{
  Runtime, Object, xilinx_object, intel_object, cosim_object, construct, make, invoke_object,
  suspend_buf, on_device,
}
use fpga_runtime.Instance.Refinement.{object_marks, session, session-Refines, invoke_object-Refines}
use fpga_runtime.Instance.Refinement.Opened.{nothing, suspend_buf-session}
use fpga_runtime.Instance.Tracing.Intel.Invoking.{invoke-placed_intel}
use fpga_runtime.Tests.{counting, counting-Accepts, running, float_arg, simulated}
use fpga_runtime.Tests.Bitstreams.{runtime, started}
use fpga_runtime.Tests.Constructors.{listing-Accepts}
use fpga_runtime.Tests.Traces.{
  two_kernels, running-starts, running_intel, running_intel-IsBacked, without_stream, no_stream,
}

abbrev commands : List Command
commands =
    set_buffer (pos 1) read_write float_arg
    ∷ set_scalar (pos 2) (6 ∷ [])
    ∷ write
    ∷ run
    ∷ suspend (pos 0)
    ∷ set_buffer (pos 0) write_only float_arg
    ∷ read
    ∷ []

-- What the sets of the device say.
abbrev marks : Directions
marks = record {
  loads = λ j. contains j running.load_indices;
  stores = λ j. contains j running.store_indices;
}

running-Refines : Refines (object_marks (xilinx_object running)) marks
unfolding contains
running-Refines = ((refl, tt), (refl, (refl, tt)), λ j. (refl, refl))

session-Refines_example :
    Refines
      (object_marks (session runtime (xilinx_object running) commands))
      (expect_all commands marks)
session-Refines_example =
    session-Refines runtime listing-Accepts commands (xilinx_object running) marks running-Refines

-- A file for the simulator, and the object that is made for it.
abbrev zip_file : Text
zip_file = 80 ∷ 75 ∷ 3 ∷ 4 ∷ 0 ∷ []

abbrev zip_object : Object
zip_object = cosim_object (record simulated {
  xo_path = runtime.places.absolute (codes "/x.xo");
  work_dir = codes "tapa-fast-cosim.XXXXXX";
  buffer_table = [];
  load_indices = [];
  store_indices = [];
})

made_object : (construct runtime (codes "/x.xo") zip_file started).0 ≡ ok zip_object
unfolding construct open_bitstream make is_xclbin is_elf is_zip CosimDevice.Construction.construct
    get_work_directory
made_object = refl

suspend_buf-session_example :
    (suspend_buf runtime (pos 0) (session runtime zip_object commands)).0
    ≡ ok (directions_of (pos 0) (expect_all commands nothing))
suspend_buf-session_example =
    suspend_buf-session runtime (codes "/x.xo") zip_file started zip_object commands (pos 0)
      listing-Accepts made_object

abbrev counting_runtime : Runtime
counting_runtime = record runtime { lib = counting }

abbrev invoked_object : Object
invoked_object = intel_object (invoke (intel_device counting) without_stream running_intel).1

returned :
    invoke_object counting_runtime without_stream (intel_object running_intel)
    ≡ (ok without_stream, invoked_object)
unfolding on_device
returned =
    ap (λ (x : Result (List Arg) × List Call). (x.0, invoked_object))
      (invoke-placed_intel counting two_kernels without_stream running_intel counting-Accepts
        running_intel-IsBacked running-starts (omega arith) no_stream)

invoke_object-Refines_example :
    Refines (object_marks invoked_object) (expect_all (arg_commands 0 without_stream) marks)
invoke_object-Refines_example =
    invoke_object-Refines counting_runtime counting-Accepts without_stream without_stream
      (intel_object running_intel) invoked_object marks running-Refines returned
