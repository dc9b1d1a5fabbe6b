-- ===== src/Tests/Bitstreams.antt =====
-- A whole run, on the machine and the binary of the tests of the constructors.
use fpga_runtime.Tests.Files.{temporary}
use fpga_runtime.Common.{◌≡◌, refl, true, []}
use fpga_runtime.Instance.{is_xclbin}
use fpga_runtime.Instance.Object.{Runtime, Process}
use fpga_runtime.Tests.{simulated}
use fpga_runtime.Tests.Constructors.{listing, host, reader, process, bitstream}
use fpga_runtime.Tests.Simulations.{simulator}

abbrev pub runtime : Runtime
runtime = record {
  lib = listing;
  host = host;
  elf = reader;
  simulator = simulator;
  places = temporary;
}

abbrev pub started : Process
started = record { env = process.env; commands = []; world = simulated.world }

pub bitstream-xclbin : is_xclbin bitstream ≡ true
unfolding is_xclbin
bitstream-xclbin = refl
