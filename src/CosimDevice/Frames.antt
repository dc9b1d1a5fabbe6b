-- ===== src/CosimDevice/Frames.antt =====
-- What the methods of the simulator do to the indices to load and to store.
use fpga_runtime.Common.{refl, List, [], ◌∷◌, Bool-cases, inl, inr, nat_eq}
use fpga_runtime.Common.Int.{ℤ}
use fpga_runtime.Common.Eq.{int_Eq}
use fpga_runtime.Containers.Maps
use fpga_runtime.Exec.Frames
use fpga_runtime.Exec.Frames.{bind-Keeps, require-Keeps}
use fpga_runtime.XilinxDevice.Environ.Frames.{get_environ-Keeps}
use fpga_runtime.XilinxDevice.Environ.{get_environ}
use fpga_runtime.CosimDevice.{
  CosimDevice, Method, Host, read_files, read_from_device, now, exec, argv, require,
}

-- The indices to load and those to store.
abbrev pub marks : CosimDevice → List ℤ × List ℤ
marks s = (s.load_indices, s.store_indices)

abbrev Keeps : {A : Type 0} → Method A → Type 0
Keeps m = Frames.Keeps marks m

read_files-Keeps : (indices : List ℤ) → Keeps (read_files indices)
unfolding read_files
read_files-Keeps [] s = refl
read_files-Keeps (index ∷ rest) s =
    bind-Keeps marks (λ t. require _ (Maps.lookup index s.buffer_table) t) _
      (require-Keeps marks _ _) (λ arg t. read_files-Keeps rest _) s

pub read_from_device-Keeps : Keeps read_from_device
unfolding read_from_device now
read_from_device-Keeps s =
    bind-Keeps marks (read_files s.store_indices) _ (read_files-Keeps s.store_indices) (λ _ t. refl)
      _

pub exec-Keeps : (host : Host) → Keeps (exec host)
unfolding exec now
exec-Keeps host s =
    bind-Keeps marks (get_environ host.shell host.env) _
      (get_environ-Keeps marks host.shell host.env)
      (λ environ t.
        elim (Bool-cases
          (nat_eq (host.run environ (argv host.save_waveform t.work_dir) t.files).0 0)) [
            | inl e ↦ rw e refl
            | inr e ↦ rw e refl
          ])
      _
