-- ===== src/OpenclDevice/Opening.antt =====
-- `OpenclDevice::Initialize` leaves the indices to load and to store alone.
use fpga_runtime.Common.{
  refl, ℕ, Bool, true, false, Bool-cases, inl, inr, List, [], ◌∷◌, Text, if◌then◌else◌,
}
use fpga_runtime.Common.Eq.{text_eq}
use fpga_runtime.Common.Int.{ℤ}
use fpga_runtime.Exec.{pure, for_each, ◌>>=◌}
use fpga_runtime.Exec.Frames.{bind-Keeps, for_each-Keeps}
use fpga_runtime.OpenclUtil.{ClInt, is_success, Place}
use fpga_runtime.Opencl.{Library, Call, get_platforms}
use fpga_runtime.OpenclDevice.{Method, request, cl_check, checked}
use fpga_runtime.OpenclDevice.Frames.{marks, Keeps, checked-Keeps}
use fpga_runtime.OpenclDevice.Initialize.{
  Target, is_target_device, create_kernels, checked_items, set_up, use_device, try_devices,
  try_platforms, initialize,
}

if-Keeps : {A : Type 0} (b : Bool) (m n : Method A) → Keeps m → Keeps n → Keeps (if b then m else n)
if-Keeps true m n h k = h
if-Keeps false m n h k = k

module _ (lib : Library) where
  cl_check-Keeps : (at : Place) (status : ClInt) → Keeps (cl_check lib at status)
  unfolding cl_check
  cl_check-Keeps at status s = elim (Bool-cases (is_success status)) [
    | inl e ↦ rw e refl
    | inr e ↦ rw e refl
  ]

  create_kernels-Keeps :
      (names : List Text) (counts : List ℤ) → Keeps (create_kernels lib names counts)
  unfolding create_kernels request
  create_kernels-Keeps [] counts s = refl
  create_kernels-Keeps (name ∷ names) [] s = refl
  create_kernels-Keeps (name ∷ names) (count ∷ counts) s =
      bind-Keeps marks (cl_check lib _ _) _ (cl_check-Keeps _ _)
        (λ _. create_kernels-Keeps names counts) _

  checked_items-Keeps : (at : Place) (c : Call) → Keeps (checked_items lib at c)
  unfolding checked_items request
  checked_items-Keeps at c s =
      bind-Keeps marks (cl_check lib _ _) _ (cl_check-Keeps _ _) (λ _ t. refl) _

  set_up-Keeps : (t : Target) (device : ℕ) → Keeps (set_up lib t device)
  unfolding set_up request
  set_up-Keeps t device s =
      bind-Keeps marks (cl_check lib _ _) _ (cl_check-Keeps _ _)
        (λ _ u.
          bind-Keeps marks (for_each (cl_check lib _) _) _
            (for_each-Keeps marks (cl_check lib _) (cl_check-Keeps _) _)
            (λ _. bind-Keeps marks (cl_check lib _ _) _ (cl_check-Keeps _ _) (λ _.
              bind-Keeps marks (checked lib _ _) _ (checked-Keeps lib _ _)
                (λ _. create_kernels-Keeps t.kernel_names t.kernel_arg_counts)))
            _)
        _

  use_device-Keeps : (t : Target) (device : ℕ) → Keeps (use_device lib t device)
  unfolding use_device request
  use_device-Keeps t device s =
      if-Keeps _ _ _ (λ u. refl)
        (bind-Keeps marks (cl_check lib _ _) _ (cl_check-Keeps _ _)
          (λ _. bind-Keeps marks (set_up lib t device) _ (set_up-Keeps t device) (λ _ u. refl)))
        _

  try_devices-Keeps : (t : Target) (devices : List ℕ) → Keeps (try_devices lib t devices)
  unfolding try_devices
  try_devices-Keeps t [] s = refl
  try_devices-Keeps t (device ∷ rest) s =
      bind-Keeps marks (checked_items lib _ _) _ (checked_items-Keeps _ _)
        (λ name.
          bind-Keeps marks
            (if is_target_device t.device_name name then use_device lib t device else pure false) _
            (if-Keeps (is_target_device t.device_name name) (use_device lib t device) (pure false)
              (use_device-Keeps t device) (λ u. refl))
            (λ done.
              if-Keeps done (pure tt) (try_devices lib t rest) (λ u. refl)
                (try_devices-Keeps t rest)))
        s

  try_platforms-Keeps : (t : Target) (platforms : List ℕ) → Keeps (try_platforms lib t platforms)
  unfolding try_platforms
  try_platforms-Keeps t [] s = refl
  try_platforms-Keeps t (platform ∷ rest) s =
      bind-Keeps marks (checked_items lib _ _) _ (checked_items-Keeps _ _)
        (λ name.
          if-Keeps (text_eq name t.vendor_name)
            (do devices ← checked_items lib _ _; try_devices lib t devices)
            (try_platforms lib t rest)
            (bind-Keeps marks (checked_items lib _ _) _ (checked_items-Keeps _ _)
              (λ devices. try_devices-Keeps t devices))
            (try_platforms-Keeps t rest))
        s

  pub initialize-Keeps : (t : Target) → Keeps (initialize lib t)
  unfolding initialize
  initialize-Keeps t =
      bind-Keeps marks (checked_items lib _ get_platforms) _ (checked_items-Keeps _ get_platforms)
        (λ platforms. try_platforms-Keeps t platforms)
