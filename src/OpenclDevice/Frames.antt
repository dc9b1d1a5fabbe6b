-- ===== src/OpenclDevice/Frames.antt =====
-- The methods of the OpenCL devices that leave the indices to load and to store alone, whatever the
-- library answers.
use fpga_runtime.Common.{ℕ, suc, refl, Bool-cases, inl, inr, Option-cases, List, [], ◌∷◌}
use fpga_runtime.Common.Int.{ℤ}
use fpga_runtime.Containers.Ordered.{OrderedMap}
use fpga_runtime.Exec.Frames
use fpga_runtime.Exec.Frames.{bind-Keeps}
use fpga_runtime.OpenclUtil.{is_success, Place}
use fpga_runtime.Opencl.{Library, Call}
use fpga_runtime.OpenclDevice.{
  OpenclDevice, Method, request, checked, get_kernel, set_scalar_arg, launch, exec, finish_queue,
}
use fpga_runtime.OpenclDevice.Requests.{checked_ok, checked_err}

-- The indices to load and those to store.
abbrev pub marks : OpenclDevice → List ℤ × List ℤ
marks s = (s.load_indices, s.store_indices)

abbrev pub Keeps : {A : Type 0} → Method A → Type 0
Keeps m = Frames.Keeps marks m

module _ (lib : Library) where
  pub checked-Keeps : (at : Place) (c : Call) → Keeps (checked lib at c)
  checked-Keeps at c s = elim (Bool-cases (is_success (lib.respond s.calls c).status)) [
    | inl good ↦ rw (checked_ok lib _ c s good) refl
    | inr bad ↦ rw (checked_err lib _ c s bad) refl
  ]

  pub set_scalar_arg-Keeps : (index : ℤ) (arg : List ℕ) → Keeps (set_scalar_arg lib index arg)
  unfolding set_scalar_arg request
  set_scalar_arg-Keeps index arg s = elim (Option-cases (get_kernel s.kernels index)) [
    | inl e ↦ rw e refl
    | inr (k, e) ↦ rw e refl
  ]

  launch-Keeps : (i : ℕ) (ks : OrderedMap ℕ) → Keeps (launch lib i ks)
  unfolding launch
  launch-Keeps i [] s = refl
  launch-Keeps i ((first, kernel) ∷ rest) s =
      bind-Keeps marks (checked lib _ _) _ (checked-Keeps _ _)
        (λ event t. launch-Keeps (suc i) rest _) s

  pub exec-Keeps : Keeps (exec lib)
  unfolding exec
  exec-Keeps s = launch-Keeps 0 s.kernels _

  pub finish_queue-Keeps : Keeps (finish_queue lib)
  unfolding finish_queue
  finish_queue-Keeps s =
      bind-Keeps marks (checked lib _ _) _ (checked-Keeps _ _)
        (λ _. bind-Keeps marks (checked lib _ _) _ (checked-Keeps _ _) (λ _ t. refl)) s
