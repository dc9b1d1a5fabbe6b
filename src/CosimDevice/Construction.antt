-- ===== src/CosimDevice/Construction.antt =====
-- The constructor and the destructor of `TapaFastCosimDevice`. What std::filesystem, `mkdtemp` and the
-- flag give are parameters. A directory is the files below it.
pub mod Removal
use fpga_runtime.Common.{
  Bool, true, false, ◌||◌, Option, none, some, [], ◌∷◌, ◌++◌, Text, codes, if◌then◌else◌,
}
use fpga_runtime.Common.Eq.{text_eq}
use fpga_runtime.Common.Split.{starts_with}
use fpga_runtime.Containers.Maps.{Map}
use fpga_runtime.Exec.{Result, ok, err, runtime_error, fatal}
use fpga_runtime.CosimDevice.{CosimDevice, World}

-- `create_directories` gives the text of the `std::filesystem::filesystem_error` that it throws, if any,
-- and `mkdtemp` the name that it makes of a template, if it can.
pub record Places : Type 0 where
  pub xosim_work_dir : Text
  pub absolute : Text → Text
  pub temp_path : Text → Text
  pub create_directories : Text → Option Text
  pub mkdtemp : Text → Option Text

-- `FLAGS_xosim_work_dir.empty()`
abbrev pub has_no_flag : Text → Bool
has_no_flag [] = true
has_no_flag (c ∷ s) = false

abbrev pub created : Text → Option Text → Result Text
created dir none = ok dir
created dir (some error) = err (runtime_error error)

abbrev pub made : Option Text → Result Text
made none = err (fatal (codes "failed to create work directory"))
made (some dir) = ok dir

unfoldable pub get_work_directory : Places → Result Text
get_work_directory p =
    if has_no_flag p.xosim_work_dir
    then made (p.mkdtemp (p.temp_path (codes "tapa-fast-cosim.XXXXXX")))
    else created (p.absolute p.xosim_work_dir) (p.create_directories p.xosim_work_dir)

abbrev pub constructed : Text → World → Result Text → Result CosimDevice
constructed xo_path world (err e) = err e
constructed xo_path world (ok work_dir) = ok (record {
  xo_path = xo_path;
  work_dir = work_dir;
  scalars = [];
  buffer_table = [];
  load_indices = [];
  store_indices = [];
  load_time = none;
  compute_time = none;
  store_time = none;
  world = world;
})

-- The constructor.
unfoldable pub construct : Places → Text → World → Result CosimDevice
construct p path world = constructed (p.absolute path) world (get_work_directory p)

-- `fs::remove_all(dir)`
unfoldable pub remove_all : Text → Map Text Text → Map Text Text
remove_all dir [] = []
remove_all dir ((path, content) ∷ files) =
    let rest = remove_all dir files in
    if text_eq path dir || starts_with (dir ++ codes "/") path then rest else (path, content) ∷ rest

-- The destructor, for the world that it leaves.
unfoldable pub destroy : Places → CosimDevice → World
unfolding remove_all
destroy p s =
    if has_no_flag p.xosim_work_dir
    then record s.world { files = remove_all s.work_dir s.files }
    else s.world
