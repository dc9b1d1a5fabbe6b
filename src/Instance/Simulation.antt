-- ===== src/Instance/Simulation.antt =====
-- `Instance::Invoke` on the simulator: what the process is given, and what the host gets back.
pub mod Arguments
use fpga_runtime.Common.{All-map}
use mathlib.Core.Path.{subst}
use fpga_runtime.CosimDevice.Validity.{IsValid, set_buffer_arg-IsValid}
use fpga_runtime.CosimDevice.Paths.{data_paths_apart}
use fpga_runtime.Common.{
  ℕ, ◌+◌, ◌<◌, ◌≡◌, refl, true, some, List, Text, Bool-cases, inl, inr, false, get_elem?, [], ◌∷◌,
  All,
}
use fpga_runtime.Common.Eq.{int_Eq, text_Eq, text_eq}
use fpga_runtime.Common.Int.{ℤ, pos, ◌-ℤ◌}
use fpga_runtime.Containers.Maps
use fpga_runtime.Containers.Maps.{Map, lookup-assign}
use fpga_runtime.Containers.Sets.{contains}
use fpga_runtime.Exec.{ok, Result, err, continue, ◌>>=◌}
use fpga_runtime.Buffer.{BufferArg, size_in_bytes, buffer_arg}
use fpga_runtime.CosimDevice.{
  CosimDevice, Host, input_data_path, config_path, config, argv, bytes_at, write_to_device,
  read_from_device, exec, finish, or_empty, output_data_path, Method, set_stream_arg,
  set_scalar_arg,
}
use fpga_runtime.CosimDevice.Files.{
  KeysDistinct, KeysDistinct-entries, lookup-write_to_device, text_eq-false,
}
use fpga_runtime.CosimDevice.Bytes.{or_old}
use fpga_runtime.CosimDevice.Reading.{Found, OthersApart, output_byte, read_files_lem}
use fpga_runtime.XilinxDevice.Environ.{Environ, get_environ}
use fpga_runtime.Instance.{
  Arg, cosim_device, set_args, invoke, has_stream, scalar, buffer, stream, set_arg,
}

abbrev tick : CosimDevice → CosimDevice
tick w = record w { world = record w.world { readings = w.readings + 1 } }

config-tick : (w : CosimDevice) → config (tick w) ≡ config w
unfolding config
config-tick w = refl

continue-IsValid :
    {A B : Type 0} (r : Result A) (f : A → Method B) (t : CosimDevice)
    → IsValid t
    → ((a : A) (u : CosimDevice) → IsValid u → IsValid (f a u).1)
    → IsValid (continue r f t).1
continue-IsValid (ok a) f t v next = next a t v
continue-IsValid (err e) f t v next = v

bind-IsValid :
    {A B : Type 0} (m : Method A) (f : A → Method B) (s : CosimDevice)
    → IsValid (m s).1
    → ((a : A) (t : CosimDevice) → IsValid t → IsValid (f a t).1)
    → IsValid ((m >>= f) s).1
bind-IsValid m f s v next = continue-IsValid (m s).0 f (m s).1 v next

module _ (host : Host) (environ : Environ)
    (got : (u : CosimDevice) → get_environ host.shell host.env u ≡ (ok environ, u)) where
  -- The files that the process gets on a device: those of the device, and the configuration.
  abbrev pub given : CosimDevice → Map Text Text
  given w = Maps.assign (config_path w.work_dir) (host.dump (config w)) w.files

  -- Its exit code, and the files that it leaves.
  abbrev pub simulate : CosimDevice → ℕ × Map Text Text
  simulate w = host.run environ (argv host.save_waveform w.work_dir) (given w)

  -- The device when the process is done.
  abbrev pub simulated_by : CosimDevice → CosimDevice
  simulated_by w = record w {
    compute_time = some (pos (w.clock (w.readings + 1)) -ℤ pos (w.clock w.readings));
    world = record w.world { files = (simulate w).1; readings = w.readings + 1 + 1 };
  }

  exec-simulated_by : (w : CosimDevice) → (simulate w).0 ≡ 0 → exec host w ≡ (ok tt, simulated_by w)
  unfolding exec
  exec-simulated_by w zero = rw (config-tick w, got _, zero)

  pub given-input :
      (s : CosimDevice) (i : ℤ) (arg : BufferArg)
      → KeysDistinct s.buffer_table
      → Maps.lookup i s.buffer_table ≡ some arg
      → Maps.lookup (input_data_path s.work_dir i) (given (write_to_device s))
        ≡ some (bytes_at s.memory arg.ptr (size_in_bytes arg))
  unfolding write_to_device
  given-input s i arg d l =
      let differ : text_eq (input_data_path s.work_dir i) (config_path s.work_dir) ≡ false =
        text_eq-false _ _ (data_paths_apart s.work_dir i i).1 in
      rw
        (
          lookup-assign (config_path s.work_dir) (input_data_path s.work_dir i)
              (host.dump (config (write_to_device s))) (write_to_device s).files,
          differ,
        )
        (lookup-write_to_device s i arg d l)

  read_from_device_lem :
      (w : CosimDevice) (o : ℤ) (out : BufferArg) (k : ℕ)
      → Found w.buffer_table w.store_indices
      → contains o w.store_indices ≡ true
      → Maps.lookup o w.buffer_table ≡ some out
      → OthersApart w.buffer_table w.store_indices o out
      → k < size_in_bytes out
      → let (r, t) = read_from_device w in
        (r ≡ ok tt) × (t.memory (out.ptr + k) ≡ output_byte w o out k)
  unfolding read_from_device
  read_from_device_lem w o out k found stored l apart small =
      let (m, returned, keeps, reads) = read_files_lem w.store_indices (tick w) found in
      rw returned (refl, reads o out k stored l apart small)

  invoke_steps :
      (args args' : List Arg) (s w : CosimDevice)
      → set_args (cosim_device host) 0 args s ≡ (ok args', w)
      → (simulate (write_to_device w)).0 ≡ 0
      → (read_from_device (simulated_by (write_to_device w))).0 ≡ ok tt
      → invoke (cosim_device host) args s
        ≡ (ok args', (read_from_device (simulated_by (write_to_device w))).1)
  unfolding invoke cosim_device finish
  invoke_steps args args' s w e zero back =
      rw (e, exec-simulated_by (write_to_device w) zero, back)
        (elim (Bool-cases (has_stream args)) [ inl streams ↦ rw streams | inr silent ↦ rw silent ])

  -- Setting an argument keeps the tables valid, whether it returns or throws.
  set_arg-IsValid :
      (index : ℕ) (arg : Arg) (s : CosimDevice)
      → IsValid s
      → IsValid (set_arg (cosim_device host) index arg s).1
  unfolding set_arg cosim_device set_stream_arg set_scalar_arg
  set_arg-IsValid index (scalar bytes) s v = record { distinct = v.distinct; found = v.found }
  set_arg-IsValid index (buffer b) s v = set_buffer_arg-IsValid (pos index) b.tag (buffer_arg b) s v
  set_arg-IsValid index (stream tag x) s v = v

  set_args-IsValid :
      (index : ℕ) (args : List Arg) (s : CosimDevice)
      → IsValid s
      → IsValid (set_args (cosim_device host) index args s).1
  unfolding set_args
  set_args-IsValid index [] s v = v
  set_args-IsValid index (arg ∷ rest) s v =
      bind-IsValid (set_arg (cosim_device host) index arg) _ s (set_arg-IsValid index arg s v)
        (λ arg' t u.
          bind-IsValid (set_args (cosim_device host) (index + 1) rest) _ t
            (set_args-IsValid (index + 1) rest t u) (λ _ x y. y))

  read_from_device_returns :
      (w : CosimDevice) → Found w.buffer_table w.store_indices → (read_from_device w).0 ≡ ok tt
  unfolding read_from_device
  read_from_device_returns w found =
      let (m, returned, keeps, reads) = read_files_lem w.store_indices (tick w) found in
      rw returned refl

  pub after_set-IsValid :
      (args args' : List Arg) (s w : CosimDevice)
      → set_args (cosim_device host) 0 args s ≡ (ok args', w)
      → IsValid s
      → IsValid w
  after_set-IsValid args args' s w e v =
      subst (λ (p : Result (List Arg) × CosimDevice). IsValid p.1) e (set_args-IsValid 0 args s v)

  pub invoke_simulated :
      (args args' : List Arg) (s w : CosimDevice)
      → set_args (cosim_device host) 0 args s ≡ (ok args', w)
      → IsValid s
      → (simulate (write_to_device w)).0 ≡ 0
      → ((invoke (cosim_device host) args s).0 ≡ ok args')
        × All
            (λ (entry : ℤ × BufferArg).
              Maps.lookup (input_data_path w.work_dir entry.0) (given (write_to_device w))
              ≡ some (bytes_at w.memory entry.1.ptr (size_in_bytes entry.1)))
            w.buffer_table
  unfolding write_to_device
  invoke_simulated args args' s w e v zero =
      let u = after_set-IsValid args args' s w e v in
      let back = read_from_device_returns (simulated_by (write_to_device w)) u.found in
      (
        rw (invoke_steps args args' s w e zero back) refl,
        All-map _ _ w.buffer_table (λ entry found. given-input w entry.0 entry.1 u.distinct found)
            (KeysDistinct-entries w.buffer_table u.distinct),
      )

  -- On such a simulator, after such a call, every byte of an argument to store that lies apart from the
  -- other arguments to store is the one at its place in the output file that the process left, or,
  -- behind the end of that file, the one that it was.
  pub invoke_simulated_memory :
      (args args' : List Arg) (s w : CosimDevice) (o : ℤ) (out : BufferArg) (k : ℕ)
      → set_args (cosim_device host) 0 args s ≡ (ok args', w)
      → IsValid s
      → (simulate (write_to_device w)).0 ≡ 0
      → contains o w.store_indices ≡ true
      → Maps.lookup o w.buffer_table ≡ some out
      → OthersApart w.buffer_table w.store_indices o out
      → k < size_in_bytes out
      → let t = (invoke (cosim_device host) args s).1 in
        let left = (simulate (write_to_device w)).1 in
        t.memory (out.ptr + k)
        ≡ or_old
            (get_elem? (or_empty (Maps.lookup (output_data_path w.work_dir o) left)) k)
            (w.memory (out.ptr + k))
  unfolding write_to_device
  invoke_simulated_memory args args' s w o out k e v zero stored lo apart small =
      let u = after_set-IsValid args args' s w e v in
      let (back, bytes) =
        read_from_device_lem (simulated_by (write_to_device w)) o out k u.found stored lo apart
          small in
      rw (invoke_steps args args' s w e zero back) bytes
