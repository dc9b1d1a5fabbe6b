-- ===== src/Instance/Program/Simulating.antt =====
-- The function `Invoke` of src/frt.h on a file for the simulator.
use fpga_runtime.Containers.Maps.{Map}
use fpga_runtime.Common.{
  ℕ, ◌+◌, ◌<◌, ◌≡◌, ◌≢◌, refl, sym, ap, ◌∙◌, true, false, none, some, List, [], get_elem?, Text,
  arith, ◌∷◌,
}
use mathlib.Core.Path.{subst}
use fpga_runtime.Common.Eq.{int_Eq, text_Eq}
use fpga_runtime.Common.Int.{ℤ, pos}
use fpga_runtime.Containers.Maps
use fpga_runtime.Containers.Sets.{contains}
use fpga_runtime.Exec.{ok}
use fpga_runtime.Buffer.{Buffer, BufferArg, buffer_arg, size_in_bytes}
use fpga_runtime.CosimDevice
use fpga_runtime.CosimDevice.{
  CosimDevice, World, Host, is_zip, input_data_path, output_data_path, bytes_at, or_empty,
  write_to_device,
}
use fpga_runtime.CosimDevice.Bytes.{or_old}
use fpga_runtime.CosimDevice.Construction.{get_work_directory}
use fpga_runtime.CosimDevice.Reading.{Apart, OthersApart}
use fpga_runtime.CosimDevice.Validity.{IsValid}
use fpga_runtime.XilinxDevice.Environ.{Environ, get_environ}
use fpga_runtime.Instance.{Arg, buffer, has_stream, invoke, cosim_device}
use fpga_runtime.Instance.Bitstreams.{open_bitstream_lem}
use fpga_runtime.Instance.Simulation.{simulate, invoke_simulated, invoke_simulated_memory}
use fpga_runtime.Instance.Simulation.Arguments.{
  after_args, after_args-world, set_args-after_args, IsStored, lookup-placed, contains-placed,
  placed-contains,
}
use fpga_runtime.Instance.Object.{Runtime, Process, cosim_object, construct, make, on_device}
use fpga_runtime.Instance.Program.{invoke_bitstream}

-- The object for a path, a work directory and a world.
abbrev pub new_device : Text → Text → World → CosimDevice
new_device xo_path dir world = record {
  xo_path = xo_path;
  work_dir = dir;
  scalars = [];
  buffer_table = [];
  load_indices = [];
  store_indices = [];
  load_time = none;
  compute_time = none;
  store_time = none;
  world = world;
}

-- The stored buffers among the arguments lie apart from that of one of them.
abbrev pub StoredApart : List Arg → ℕ → Buffer → Type 0
StoredApart args o out =
    (j : ℕ) (other : Buffer)
    → IsStored args j other
    → j ≢ o
    → Apart (buffer_arg out) (buffer_arg other)

new_device-IsValid : (xo_path dir : Text) (world : World) → IsValid (new_device xo_path dir world)
unfolding Maps.has_key contains
new_device-IsValid xo_path dir world = record { distinct = tt; found = λ j h. ground arith }

same_some : {x y : BufferArg} → some x ≡ some y → x ≡ y
same_some e = cc

others-apart :
    (args : List Arg) (s : CosimDevice) (o : ℕ) (out : Buffer)
    → s.buffer_table ≡ []
    → s.store_indices ≡ []
    → StoredApart args o out
    → let w = after_args 0 args s in
      OthersApart w.buffer_table w.store_indices (pos o) (buffer_arg out)
others-apart args s o out no_buffer no_store apart j other there differ l =
    let (i, b, e, stored) = placed-contains args s j no_store there in
    let w = after_args 0 args s in
    let at_number : Maps.lookup (pos i) w.buffer_table ≡ some other =
      ap (λ (x : ℤ). Maps.lookup x w.buffer_table) (sym e) ∙ l in
    let same : buffer_arg b ≡ other =
      same_some (sym (lookup-placed args s i b no_buffer stored.0) ∙ at_number) in
    subst (Apart (buffer_arg out)) same (apart i b stored (λ q. differ (e ∙ ap pos q)))

module _ (r : Runtime) (environ : Environ)
    (got : (u : CosimDevice)
      → get_environ r.simulator.shell r.simulator.env u ≡ (ok environ, u)) where
  -- The object that transfers to the process, for the arguments.
  abbrev pub before_run : Text → Text → List Arg → Process → CosimDevice
  before_run path dir args p =
      write_to_device (after_args 0 args (new_device (r.places.absolute path) dir p.world))

  -- Each buffer argument has an input file under its number, with the bytes of host memory that it
  -- covers.
  abbrev pub AllGiven : Map Text Text → Text → (ℕ → ℕ) → ℕ → List Arg → Type 0
  AllGiven files dir memory n [] = Unit {0}
  AllGiven files dir memory n (buffer b ∷ rest) =
      (Maps.lookup (input_data_path dir (pos n)) files
        ≡ some (bytes_at memory (buffer_arg b).ptr (size_in_bytes (buffer_arg b))))
      × AllGiven files dir memory (n + 1) rest
  AllGiven files dir memory n (_ ∷ rest) = AllGiven files dir memory (n + 1) rest

  -- The object for the file, and with the arguments.
  abbrev pub fresh_device : Text → Text → Process → CosimDevice
  fresh_device path dir p = new_device (r.places.absolute path) dir p.world

  -- On such a file, after such a run: every byte of a buffer that the kernel writes, if it lies apart
  -- from the other buffers that it writes, is in the memory of the object that is returned the one at
  -- its place in the output file that the process left under the buffer's number, or, behind the end
  -- of that file, the one that it was.
  pub invoke_bitstream_simulated_memory :
      (path binary dir : Text) (args : List Arg) (p : Process) (o : ℕ) (out : Buffer) (k : ℕ)
      → is_zip binary ≡ true
      → get_work_directory r.places ≡ ok dir
      → has_stream args ≡ false
      → (simulate r.simulator environ got (before_run path dir args p)).0 ≡ 0
      → IsStored args o out
      → StoredApart args o out
      → k < size_in_bytes (buffer_arg out)
      → let left = (simulate r.simulator environ got (before_run path dir args p)).1 in
        let address = (buffer_arg out).ptr + k in
        (t : CosimDevice) × ((invoke_bitstream r path binary args p).0 ≡ ok (cosim_object t, args))
        × (t.memory address
            ≡ or_old
                (get_elem? (or_empty (Maps.lookup (output_data_path dir (pos o)) left)) k)
                (p.world.memory address))
  unfolding invoke_bitstream construct make on_device CosimDevice.Construction.construct
  invoke_bitstream_simulated_memory path binary dir args p o out k magic made no_stream zero stored
        apart small =
      let s = fresh_device path dir p in
      let w = after_args 0 args s in
      let (same, placed) = after_args-world 0 args s in
      let set = set_args-after_args r.simulator 0 args s no_stream in
      let run =
        invoke_simulated r.simulator environ got args args s w set (new_device-IsValid _ _ _)
          zero in
      let memory =
        invoke_simulated_memory r.simulator environ got args args s w (pos o) (buffer_arg out) k set
          (new_device-IsValid _ _ _) zero (contains-placed args s o out stored)
          (lookup-placed args s o out refl stored.0) (others-apart args s o out refl refl apart)
          small in
      let byte : Text → World → ℕ = λ d x.
        or_old
          (get_elem?
            (or_empty (
              Maps.lookup (output_data_path d (pos o))
                (simulate r.simulator environ got (write_to_device w)).1))
            k)
          (x.memory ((buffer_arg out).ptr + k)) in
      (
        (invoke (cosim_device r.simulator) args s).1,
        rw ((open_bitstream_lem binary).2.1 magic, made, run.0) refl,
        memory ∙ ap (λ (d : Text). byte d w.world) placed ∙ ap (λ (x : World). byte dir x) same,
      )
