-- ===== src/CosimDevice/Blame.antt =====
-- The methods of the simulator make no request under `CL_CHECK`.
use fpga_runtime.Common.{List, [], ◌∷◌, Bool-cases, inl, inr, nat_eq, Text}
use fpga_runtime.Common.Int.{ℤ}
use fpga_runtime.Common.Eq.{int_Eq}
use fpga_runtime.Containers.Maps
use fpga_runtime.Exec.Blame
use fpga_runtime.Exec.Blame.{bind-Explains, require-Explains}
use fpga_runtime.XilinxDevice.Environ.Blame.{get_environ-Explains}
use fpga_runtime.XilinxDevice.Environ.{get_environ}
use fpga_runtime.Common.{◌%◌, ◌+◌, ℕ}
use fpga_runtime.Buffer.{size_in_bytes, size_mod}
use fpga_runtime.CosimDevice.{
  sum_stores, store_bytes, CosimDevice, Method, Host, read_files, read_from_device, now, exec, argv,
  require,
}

-- No name of a status explains anything here.
abbrev pub Never : Text → CosimDevice → Type 0
Never name s = ⊥

abbrev Explains : {A : Type 0} → Method A → Type 0
Explains m = Blame.Explains Never m

read_files-Explains : (indices : List ℤ) → Explains (read_files indices)
unfolding read_files
read_files-Explains [] s = tt
read_files-Explains (index ∷ rest) s =
    bind-Explains Never (λ t. require _ (Maps.lookup index s.buffer_table) t) _
      (require-Explains Never _ _ (λ u. tt)) (λ arg t. read_files-Explains rest _) s

pub read_from_device-Explains : Explains read_from_device
unfolding read_from_device now
read_from_device-Explains s =
    bind-Explains Never (read_files s.store_indices) _ (read_files-Explains s.store_indices)
      (λ _ t. tt) _

pub exec-Explains : (host : Host) → Explains (exec host)
unfolding exec now
exec-Explains host s =
    bind-Explains Never (get_environ host.shell host.env) _
      (get_environ-Explains Never host.shell host.env)
      (λ environ t.
        elim (Bool-cases
          (nat_eq (host.run environ (argv host.save_waveform t.work_dir) t.files).0 0)) [
            | inl e ↦ rw e tt
            | inr e ↦ rw e tt
          ])
      _

sum_stores-Explains : (total : ℕ) (indices : List ℤ) → Explains (sum_stores total indices)
unfolding sum_stores
sum_stores-Explains total [] s = tt
sum_stores-Explains total (index ∷ rest) s =
    bind-Explains Never (λ t. require _ (Maps.lookup index s.buffer_table) t) _
      (require-Explains Never _ _ (λ u. tt))
      (λ arg. sum_stores-Explains ((total + size_in_bytes arg) % size_mod) rest) s

pub store_bytes-Explains : Explains store_bytes
unfolding store_bytes
store_bytes-Explains s = sum_stores-Explains 0 s.store_indices s
