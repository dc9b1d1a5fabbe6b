-- ===== src/OpenclDevice/Kernels.antt =====
-- The kernel table: the last loop of `Initialize` fills it with the prefix sums of the argument counts,
-- and `GetKernel` finds the kernel of an argument in it.
use fpga_runtime.OpenclUtil.{Place}
use mathlib.Core.List.{append-nil, append_assoc}
use fpga_runtime.Common.{
  ℕ, ◌+◌, ◌-◌, ◌≤◌, ◌<◌, ◌≡◌, refl, ap, Option, none, some, true, false, List, [], ◌∷◌, ◌++◌, map,
  length, All, arith, ltb, Bool-cases, inl, inr, if◌then◌else◌, length-append,
}
use fpga_runtime.Common.Int.{ℤ, pos, ◌-ℤ◌, ◌≤ℤ◌, ltb_ℤ, int_laws}
use fpga_runtime.Containers.Ordered
use fpga_runtime.Containers.Ordered.{
  OrderedMap, last_le, at_prev-upper_bound, assign_all, IsAscending, last_le-cons,
}
use fpga_runtime.Containers.Ordered.Assignments.{last_le-assign_all, NonDecreasing, AllAbove-nil}
use fpga_runtime.Exec.{ok}
use fpga_runtime.Opencl.{Library, Call, Accepts, create_kernel}
use fpga_runtime.Metadata.{XmlKernel}
use fpga_runtime.Metadata.Numbering.{prefix_sums, kernel_args}
use fpga_runtime.OpenclDevice.{OpenclDevice, get_kernel, request, cl_check, kernel_at}
use fpga_runtime.OpenclDevice.Initialize.{create_kernels}

-- The kernel of the argument with number `i`, and the argument's number in it: the argument lists of
-- the kernels, one behind the other.
abbrev pub locate : ℕ → List (ℕ × ℕ) → Option (ℤ × ℕ)
locate i [] = none
locate i ((kernel, args) ∷ rest) =
    if ltb i args then some (pos i, kernel) else locate (i - args) rest

abbrev pub total_args : List (ℕ × ℕ) → ℕ
total_args [] = 0
total_args ((kernel, args) ∷ rest) = args + total_args rest

-- The entries that the loop assigns.
abbrev pub starts : ℕ → List (ℕ × ℕ) → OrderedMap ℕ
starts base [] = []
starts base ((kernel, args) ∷ rest) = (pos base, kernel) ∷ starts (base + args) rest

starts-above :
    (low base : ℕ) (ks : List (ℕ × ℕ)) → low ≤ base → All (λ e. pos low ≤ℤ e.0) (starts base ks)
starts-above low base [] h = tt
starts-above low base ((kernel, args) ∷ rest) h =
    (omega arith, starts-above low (base + args) rest (omega arith))

starts-NonDecreasing : (base : ℕ) (ks : List (ℕ × ℕ)) → NonDecreasing (starts base ks)
starts-NonDecreasing base [] = tt
starts-NonDecreasing base ((kernel, args) ∷ rest) =
    (starts-above base (base + args) rest (omega arith), starts-NonDecreasing (base + args) rest)

last_le-starts_above :
    (i base : ℕ) (ks : List (ℕ × ℕ)) → i < base → last_le (pos i) (starts base ks) ≡ none
unfolding last_le
last_le-starts_above i base [] h = refl
last_le-starts_above i base ((kernel, args) ∷ rest) h =
    let below : ltb_ℤ (pos i) (pos base) ≡ true = ground arith in rw below

pub get_kernel_lem : (m : OrderedMap ℕ) (i : ℤ) → get_kernel m i ≡ kernel_at i (last_le i m)
unfolding get_kernel
get_kernel_lem m i = ap (kernel_at i) (at_prev-upper_bound i m)

pos-sub : (j a b : ℕ) → j ≡ a + b → pos j -ℤ pos a ≡ pos b
pos-sub j a b h = omega int_laws

-- The last start at or below an argument is that of its kernel.
last_le-starts :
    (j i base : ℕ) (ks : List (ℕ × ℕ))
    → j ≡ base + i
    → i < total_args ks
    → (x : ℤ × ℕ) × (last_le (pos j) (starts base ks) ≡ some x)
      × (kernel_at (pos j) (some x) ≡ locate i ks)
last_le-starts j i base [] e h = absurd (omega arith)
last_le-starts j i base ((kernel, args) ∷ rest) e h =
    let above : ltb_ℤ (pos j) (pos base) ≡ false = ground arith in
    let step = last_le-cons (pos j) (pos base) kernel (starts (base + args) rest) above in
    elim (Bool-cases (ltb i args)) [
      | inl inside ↦ (
        (pos base, kernel),
        rw (step, last_le-starts_above j (base + args) rest (ground arith)),
        rw inside (ap (λ (z : ℤ). some (z, kernel)) (pos-sub j base i e)),
      )
      | inr behind ↦
          let (x, found, there) =
            last_le-starts j (i - args) (base + args) rest (ground arith) (ground arith) in
          (x, rw (step, found), rw behind there)
    ]

-- The table that the loop builds sends each argument to its kernel and its number there.
pub get_kernel-starts :
    (i : ℕ) (ks : List (ℕ × ℕ))
    → i < total_args ks
    → get_kernel (assign_all (starts 0 ks) []) (pos i) ≡ locate i ks
get_kernel-starts i ks h =
    let (x, found, there) = last_le-starts i i 0 ks (omega arith) h in
    rw
      (
        get_kernel_lem (assign_all (starts 0 ks) []) (pos i),
        last_le-assign_all (pos i) (starts 0 ks) [] tt (AllAbove-nil (starts 0 ks))
            (starts-NonDecreasing 0 ks),
        found,
      )
      there

module _ (lib : Library) where
  -- The kernels that the library makes for the metadata, each with the number of its arguments.
  abbrev pub made_kernels : List Call → ℕ → List XmlKernel → List (ℕ × ℕ)
  made_kernels before program [] = []
  made_kernels before program (k ∷ ks) =
      let c = create_kernel program k.name in
      ((lib.respond before c).value, length k.args) ∷ made_kernels (before ++ c ∷ []) program ks

  abbrev pub create_calls : ℕ → List XmlKernel → List Call
  create_calls program [] = []
  create_calls program (k ∷ ks) = create_kernel program k.name ∷ create_calls program ks

  cl_check-Accepts :
      Accepts lib
      → (at : Place) (before : List Call) (c : Call) (s : OpenclDevice)
      → cl_check lib at (lib.respond before c).status s ≡ (ok tt, s)
  unfolding cl_check
  cl_check-Accepts a at before c s = rw (a before c)

  -- With a library that turns nothing down the loop returns, its only requests are one for each kernel
  -- in order, and the table is changed by the assignments of the prefix sums.
  pub create_kernels_lem :
      Accepts lib
      → (base : ℕ) (ks : List XmlKernel) (s : OpenclDevice)
      → create_kernels lib (map (λ k. k.name) ks) (prefix_sums base ks) s ≡ (
        ok tt,
        record s {
          kernels = assign_all (starts base (made_kernels s.calls s.program ks)) s.kernels;
          calls = s.calls ++ create_calls s.program ks;
        },
      )
  unfolding create_kernels request assign_all
  create_kernels_lem a base [] s = rw append-nil
  create_kernels_lem a base (k ∷ ks) s =
      rw (cl_check-Accepts a _ s.calls (create_kernel s.program k.name)) (
        rw
          (create_kernels_lem a (base + length k.args) ks (record s {
            kernels =
                Ordered.assign (pos base)
                  (lib.respond s.calls (create_kernel s.program k.name)).value s.kernels;
            calls = s.calls ++ create_kernel s.program k.name ∷ [];
          }))
          (rw append_assoc))

  pub total_args-made_kernels :
      (before : List Call) (program : ℕ) (ks : List XmlKernel)
      → total_args (made_kernels before program ks) ≡ length (kernel_args ks)
  total_args-made_kernels before program [] = refl
  total_args-made_kernels before program (k ∷ ks) = omega (
    arith,
    length-append k.args (kernel_args ks),
    total_args-made_kernels (before ++ create_kernel program k.name ∷ []) program ks,
  )

  -- After the loop on the metadata `ks`, from an empty table and with a library that turns nothing down,
  -- `GetKernel` sends every argument number below the total of the arguments to the kernel that owns
  -- the argument, with the argument's number in that kernel, also where some kernels have no argument.
  pub get_kernel-create_kernels :
      Accepts lib
      → (ks : List XmlKernel) (s : OpenclDevice) (i : ℕ) → s.kernels ≡ []
      → i < length (kernel_args ks)
      → let (r, s') = create_kernels lib (map (λ k. k.name) ks) (prefix_sums 0 ks) s in
        (r ≡ ok tt) × (get_kernel s'.kernels (pos i) ≡ locate i (made_kernels s.calls s.program ks))
  get_kernel-create_kernels a ks s i empty h =
      let made = made_kernels s.calls s.program ks in
      let small : i < total_args made =
        omega (arith, total_args-made_kernels s.calls s.program ks) in
      rw (create_kernels_lem a 0 ks s, empty) (refl, get_kernel-starts i made small)
