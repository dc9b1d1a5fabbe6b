-- ===== src/Tests/Blame.antt =====
-- The theorem on the errors of `CL_CHECK`, with a library that turns every request down, and the
-- theorem on a whole run of the simulator.
use fpga_runtime.Common.{
  ◌≡◌, ◌+◌, ◌<◌, refl, true, false, some, List, [], ◌∷◌, zero, suc, get_elem?, arith, codes, Text,
}
use fpga_runtime.Common.Eq.{int_Eq, text_Eq}
use fpga_runtime.Common.Int.{pos}
use fpga_runtime.Containers.Maps
use fpga_runtime.Exec.{ok}
use fpga_runtime.OpenclUtil.{cl_out_of_resources}
use fpga_runtime.Opencl.{Library}
use fpga_runtime.Tag.{is_store}
use fpga_runtime.Buffer.{buffer_arg, size_in_bytes}
use fpga_runtime.CosimDevice.{CosimDevice, is_zip, output_data_path, or_empty}
use fpga_runtime.CosimDevice.Bytes.{or_old}
use fpga_runtime.CosimDevice.Construction.{get_work_directory}
use fpga_runtime.Instance.{Arg, scalar, buffer, has_stream}
use fpga_runtime.Instance.Object.{Runtime, cosim_object}
use fpga_runtime.Instance.Program.{invoke_bitstream}
use fpga_runtime.Instance.Program.Simulating.{
  before_run, StoredApart, invoke_bitstream_simulated_memory,
}
use fpga_runtime.Instance.Simulation.{simulate}
use fpga_runtime.Instance.Simulation.Arguments.{IsStored}
use fpga_runtime.Tests.{counting, floats}
use fpga_runtime.Tests.Bitstreams.{runtime, started}
use fpga_runtime.Tests.Constructors.{tool_environ, got_environ}
use fpga_runtime.Tests.Files.{temporary}

-- A library that turns every request down.
abbrev refusing : Library
refusing = record counting {
  respond =
      λ before c. record { status = cl_out_of_resources; value = 0; items = []; statuses = [] };
}

abbrev refused : Runtime
refused = record runtime { lib = refusing }

abbrev two_args : List Arg
two_args = scalar (6 ∷ []) ∷ buffer floats ∷ []

-- The work directory in which the simulator of the tests leaves its file.
abbrev in_w : Runtime
in_w = record runtime { places = record temporary { mkdtemp = λ template. some (codes "/w") } }

abbrev zip_file : Text
zip_file = 80 ∷ 75 ∷ 3 ∷ 4 ∷ 0 ∷ []

zip_file_zip : is_zip zip_file ≡ true
unfolding is_zip
zip_file_zip = refl

work_dir : get_work_directory in_w.places ≡ ok (codes "/w")
unfolding get_work_directory
work_dir = refl

silent : has_stream two_args ≡ false
unfolding has_stream
silent = refl

floats-IsStored : IsStored two_args 1 floats
unfolding is_store
floats-IsStored = (refl, refl)

floats-StoredApart : StoredApart two_args 1 floats
floats-StoredApart zero other h differ = cc
floats-StoredApart (suc zero) other h differ = absurd (differ refl)
floats-StoredApart (suc (suc j)) other h differ = cc

byte_3 : 3 < size_in_bytes (buffer_arg floats)
unfolding size_in_bytes buffer_arg
byte_3 = omega arith

invoke_bitstream_simulated_memory_example :
    let before =
      before_run in_w tool_environ got_environ (codes "/x.xo") (codes "/w") two_args started in
    let left = (simulate in_w.simulator tool_environ got_environ before).1 in
    let address = (buffer_arg floats).ptr + 3 in
    (t : CosimDevice) × ((invoke_bitstream in_w (codes "/x.xo") zip_file two_args started).0
      ≡ ok (cosim_object t, two_args))
    × (t.memory address
        ≡ or_old
            (get_elem? (or_empty (Maps.lookup (output_data_path (codes "/w") (pos 1)) left)) 3)
            (started.world.memory address))
invoke_bitstream_simulated_memory_example =
    invoke_bitstream_simulated_memory in_w tool_environ got_environ (codes "/x.xo") zip_file
      (codes "/w") two_args started 1 floats 3 zip_file_zip work_dir silent refl floats-IsStored
      floats-StoredApart byte_3
