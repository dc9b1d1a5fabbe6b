-- ===== src/CosimDevice.antt =====
-- src/frt/tapa_fast_cosim_device.h and src/frt/tapa_fast_cosim_device.cpp: a device that is a simulator
-- in another process, with which it talks through files. The file system is a map from paths to
-- contents in which every file can be opened for writing, and a file that is not there reads as empty.
-- The clock is a sequence of readings. The two `gflags` are parameters, as are the JSON printer and
-- the process. A time is `none` as long as nothing was measured: the field is not initialized then.
mod Store
unfoldable pub use Store.*
pub mod Construction
pub mod Scalars
pub mod Paths
pub mod Files
pub mod Configuration
pub mod Bytes
pub mod Reading
pub mod Frames
pub mod Blame
pub mod Validity
use fpga_runtime.Common.{
  ℕ, zero, suc, ◌+◌, ◌/◌, ◌%◌, Bool, false, Option, none, some, List, [], ◌∷◌, ◌++◌, map, length,
  take, Text, codes, ltb, nat_eq, ◌||◌, if◌then◌else◌,
}
use mathlib.Core.List.{reverse}
use fpga_runtime.Common.Eq.{int_Eq, text_Eq, text_eq}
use fpga_runtime.Common.Int.{ℤ, pos, ◌-ℤ◌}
use fpga_runtime.Common.Decimal.{to_string}
use fpga_runtime.Containers.Maps
use fpga_runtime.Containers.Maps.{Map}
use fpga_runtime.Containers.Sets
use fpga_runtime.Containers.Sort.{sort_by}
use fpga_runtime.Exec.{
  Exec, ok, out_of_range, undefined, fatal, pure, raise, gets, modify, require, ◌>>=◌, ◌>>◌,
}
use fpga_runtime.Tag.{Tag, tag_eq, read_only, write_only, read_write}
use fpga_runtime.Buffer.{BufferArg, size_in_bytes, size_in_count, size_mod}
use fpga_runtime.ArgInfo.{ArgInfo, scalar, mmap}
use fpga_runtime.Streams.{StreamWrapper}
use fpga_runtime.XilinxDevice.Environ.{Environ, Shell, get_environ}

pub record CosimDevice : Type 0 where
  pub xo_path : Text
  pub work_dir : Text
  pub scalars : Map ℤ Text
  pub buffer_table : Map ℤ BufferArg
  pub load_indices : List ℤ
  pub store_indices : List ℤ
  pub load_time : Option ℤ
  pub compute_time : Option ℤ
  pub store_time : Option ℤ
  pub world : World
  pub open world use {files, memory, clock, readings}

abbrev pub Method : Type 0 → Type 0
Method A = Exec CosimDevice A

-- `New`: the first four bytes of a zip file; the path is for the constructor.
abbrev pub zip_magic : Text
zip_magic = 80 ∷ 75 ∷ 3 ∷ 4 ∷ []

unfoldable pub is_zip : Text → Bool
is_zip content =
    if ltb (length content) (length zip_magic)
    then false
    else text_eq (take (length zip_magic) content) zip_magic

unfoldable pub set_scalar_arg : ℤ → List ℕ → CosimDevice → CosimDevice
set_scalar_arg index arg s = record s { scalars = Maps.assign index (scalar_text arg) s.scalars }

unfoldable pub set_buffer_arg : ℤ → Tag → BufferArg → CosimDevice → CosimDevice
set_buffer_arg index tag arg s = record s {
  buffer_table = Maps.insert index arg s.buffer_table;
  store_indices =
      if tag_eq tag read_only || tag_eq tag read_write
      then Sets.insert index s.store_indices
      else s.store_indices;
  load_indices =
      if tag_eq tag write_only || tag_eq tag read_write
      then Sets.insert index s.load_indices
      else s.load_indices;
}

unfoldable pub set_stream_arg : ℤ → Tag → StreamWrapper → Method StreamWrapper
set_stream_arg index tag arg =
    raise (fatal (codes "TAPA fast cosim device does not support streaming"))

unfoldable pub suspend_buffer : ℤ → Method ℕ
suspend_buffer index s = (
  ok (Sets.erase_count index s.load_indices + Sets.erase_count index s.store_indices),
  record s {
    load_indices = Sets.erase index s.load_indices;
    store_indices = Sets.erase index s.store_indices;
  },
)

unfoldable pub write_to_device : CosimDevice → CosimDevice
write_to_device s = record s {
  load_time = some (pos (s.clock (s.readings + 1)) -ℤ pos (s.clock s.readings));
  world = record s.world {
    files = write_files s.work_dir s.memory s.buffer_table s.files;
    readings = s.readings + 2;
  };
}

-- `clock::now()`
unfoldable pub now : Method ℤ
now s = (
  ok (pos (s.clock s.readings)),
  record s { world = record s.world { readings = s.readings + 1 } },
)

-- The loop of `ReadFromDevice`, over the indices to store.
unfoldable pub read_files : List ℤ → Method (Unit {0})
unfolding read_file
read_files [] = pure tt
read_files (index ∷ rest) =
    let go_on = read_files rest in
    do
      table ← gets (λ s. s.buffer_table)
      arg ← require out_of_range (Maps.lookup index table)
      modify (λ s. record s {
        world = record s.world {
          memory = read_file s.files (output_data_path s.work_dir index) arg s.memory;
        };
      })
      go_on

unfoldable pub read_from_device : Method (Unit {0})
unfolding now
read_from_device = do
  tic ← now
  indices ← gets (λ s. s.store_indices)
  read_files indices
  toc ← now
  modify (λ s. record s { store_time = some (toc -ℤ tic) })

-- The object that `Exec` prints to config.json.
pub record Config : Type 0 where
  pub xo_path : Text
  pub scalar_to_val : Map Text Text
  pub axi_to_c_array_size : Map Text ℕ
  pub axi_to_data_file : Map Text Text

-- The three loops that fill it.
unfoldable pub scalar_values : Map ℤ Text → Map Text Text → Map Text Text
scalar_values [] m = m
scalar_values ((index, text) ∷ rest) m = scalar_values rest (Maps.assign (to_string index) text m)

unfoldable pub array_sizes : Map ℤ BufferArg → Map Text ℕ → Map Text ℕ
array_sizes [] m = m
array_sizes ((index, arg) ∷ rest) m =
    array_sizes rest (Maps.assign (to_string index) (size_in_count arg) m)

unfoldable pub data_files : Text → Map ℤ BufferArg → Map Text Text → Map Text Text
data_files work_dir [] m = m
data_files work_dir ((index, arg) ∷ rest) m =
    data_files work_dir rest (Maps.assign (to_string index) (input_data_path work_dir index) m)

unfoldable pub config : CosimDevice → Config
config s = record {
  xo_path = s.xo_path;
  scalar_to_val = scalar_values s.scalars [];
  axi_to_c_array_size = array_sizes s.buffer_table [];
  axi_to_data_file = data_files s.work_dir s.buffer_table [];
}

unfoldable pub argv : Bool → Text → List Text
argv save_waveform work_dir =
    (codes "python3"
      ∷ codes "-m"
      ∷ codes "tapa_fast_cosim.main"
      ∷ (codes "--config_path=" ++ config_path work_dir)
      ∷ (codes "--tb_output_dir=" ++ (work_dir ++ codes "/output"))
      ∷ codes "--launch_simulation"
      ∷ [])
    ++ (if save_waveform then codes "--save_waveform" ∷ [] else [])

-- The process that `Exec` starts and waits for, and the printer of JSON: neither is in the repository.
-- A process gets its environment, its arguments and the files, and leaves an exit code and the files.
pub record Host : Type 0 where
  pub save_waveform : Bool
  pub dump : Config → Text
  pub run : Environ → List Text → Map Text Text → ℕ × Map Text Text
  -- what `XilinxOpenclDevice::GetEnviron` uses
  pub shell : Shell
  pub env : Environ

unfoldable pub exec : Host → Method (Unit {0})
unfolding now
exec host = do
  tic ← now
  modify (λ s. record s {
    world = record s.world {
      files = Maps.assign (config_path s.work_dir) (host.dump (config s)) s.files;
    };
  })
  environ ← get_environ host.shell host.env
  (rc, files') ← gets (λ s. host.run environ (argv host.save_waveform s.work_dir) s.files)
  modify (λ s. record s { world = record s.world { files = files' } })
  if nat_eq rc 0 then pure tt else raise (fatal (codes "TAPA fast cosim failed"))
  toc ← now
  modify (λ s. record s { compute_time = some (toc -ℤ tic) })

-- `Finish` does nothing.
unfoldable pub finish : Method (Unit {0})
finish = pure tt

unfoldable pub scalar_info : ℤ × Text → ArgInfo
scalar_info (index, text) = record { index = index; name = []; type = []; cat = scalar }

unfoldable pub buffer_info : ℤ × BufferArg → ArgInfo
buffer_info (index, arg) = record { index = index; name = []; type = []; cat = mmap }

unfoldable pub get_args_info : CosimDevice → List ArgInfo
get_args_info s =
    sort_by (λ a. a.index) (map scalar_info s.scalars ++ map buffer_info s.buffer_table)

-- A time that was not measured is read from a field that is not initialized.
unfoldable pub load_time_nanoseconds : Method ℤ
load_time_nanoseconds s = require undefined s.load_time s

unfoldable pub compute_time_nanoseconds : Method ℤ
compute_time_nanoseconds s = require undefined s.compute_time s

unfoldable pub store_time_nanoseconds : Method ℤ
store_time_nanoseconds s = require undefined s.store_time s

unfoldable pub sum_bytes : ℕ → Map ℤ BufferArg → ℕ
sum_bytes total [] = total
sum_bytes total ((index, arg) ∷ rest) = sum_bytes ((total + size_in_bytes arg) % size_mod) rest

unfoldable pub load_bytes : CosimDevice → ℕ
load_bytes s = sum_bytes 0 s.buffer_table

unfoldable pub sum_stores : ℕ → List ℤ → Method ℕ
sum_stores total [] = pure total
sum_stores total (index ∷ rest) = do
  table ← gets (λ s. s.buffer_table)
  arg ← require out_of_range (Maps.lookup index table)
  sum_stores ((total + size_in_bytes arg) % size_mod) rest

unfoldable pub store_bytes : Method ℕ
store_bytes s = sum_stores 0 s.store_indices s
