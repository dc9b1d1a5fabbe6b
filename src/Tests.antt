-- ===== src/Tests.antt =====
-- Concrete data: a library that turns nothing down, the objects of a small program, its metadata.
pub mod Bitstreams
pub mod Blame
pub mod Constructors
pub mod Devices
pub mod Environs
pub mod Files
pub mod Measures
pub mod Names
pub mod Programs
pub mod Refinements
pub mod Simulations
pub mod Streams
pub mod Traces
pub mod Transfers
use fpga_runtime.Common.{
  ℕ, suc, ◌≡◌, refl, true, false, none, List, [], ◌∷◌, length, codes, ◌+◌, ◌*◌,
}
use fpga_runtime.Common.Int.{pos}
use fpga_runtime.Containers.Ordered.{assign_all}
use fpga_runtime.OpenclUtil.{cl_success}
use fpga_runtime.Opencl.{Library, Accepts}
use fpga_runtime.Tag.{read_write}
use fpga_runtime.Buffer.{Buffer, BufferArg, buffer_arg}
use fpga_runtime.OpenclDevice.{OpenclDevice}
use fpga_runtime.OpenclDevice.Validity.{IsValid}
use fpga_runtime.CosimDevice.{CosimDevice}
use fpga_runtime.Metadata.{XmlArg, XmlKernel}

-- A library that answers each request with success and a fresh handle.
abbrev pub counting : Library
counting = record {
  headers = record {
    version_1_1 = true;
    version_1_2 = true;
    version_2_0 = true;
    version_2_2 = false;
  };
  has_xcl_write_only = true;
  has_xcl_read_only = true;
  respond = λ before c. record {
    status = cl_success;
    value = 100 + length before;
    items = [];
    statuses = cl_success ∷ [];
  };
}

pub counting-Accepts : Accepts counting
counting-Accepts = λ before c. refl

abbrev pub opened : OpenclDevice
opened = record {
  device = 1;
  context = 2;
  cmd = 3;
  program = 4;
  kernels = [];
  buffer_table = [];
  arg_table = [];
  load_indices = [];
  store_indices = [];
  load_event = [];
  compute_event = [];
  store_event = [];
  host_ptr_table = [];
  calls = [];
}

-- Two kernels, of two arguments and of one, and two buffers, of which one goes both ways.
abbrev pub running : OpenclDevice
running = record opened {
  kernels = (pos 0, 10) ∷ (pos 2, 11) ∷ [];
  buffer_table = (pos 0, 20) ∷ (pos 2, 21) ∷ [];
  load_indices = pos 0 ∷ [];
  store_indices = pos 2 ∷ pos 0 ∷ [];
  compute_event = 7 ∷ [];
}

abbrev pub floats : Buffer
floats = record { ptr = 4096; n = 6; elem_size = 4; tag = read_write }

abbrev pub float_arg : BufferArg
float_arg = record { ptr = 4096; size = 4; n = 6 }

abbrev pub adder : XmlKernel
adder = record {
  name = codes "add";
  args =
      record { name = codes "a"; type = codes "float*"; qualifier = codes "1" }
      ∷ record { name = codes "n"; type = codes "int"; qualifier = codes "0" }
      ∷ [];
}

abbrev pub idle : XmlKernel
idle = record { name = codes "idle"; args = [] }

abbrev pub printer : XmlKernel
printer = record {
  name = codes "print";
  args = record { name = codes "s"; type = codes "stream"; qualifier = codes "4" } ∷ [];
}

abbrev pub simulated : CosimDevice
simulated = record {
  xo_path = codes "/x.xo";
  work_dir = codes "/w";
  scalars = [];
  buffer_table = (pos 1, float_arg) ∷ (pos 3, record { ptr = 64; size = 1; n = 2 }) ∷ [];
  load_indices = pos 1 ∷ [];
  store_indices = pos 1 ∷ [];
  load_time = none;
  compute_time = none;
  store_time = none;
  world = record { files = []; memory = λ address. address; clock = λ n. n * 5; readings = 0 };
}
