-- ===== src/Instance/Repetition.antt =====
-- An `Instance` that a host invokes again and again.
use mathlib.Core.Path.{subst}
use fpga_runtime.Common.{ℕ, ◌≤◌, ◌≡◌, refl, false, List, [], ◌∷◌, All, length}
use fpga_runtime.Containers.Ordered.{assign_all}
use fpga_runtime.Exec.{Exec, Result, ok, pure, ◌>>=◌}
use fpga_runtime.Opencl.{Library, Accepts}
use fpga_runtime.OpenclDevice.{OpenclDevice}
use fpga_runtime.OpenclDevice.Kernels.{starts, total_args}
use fpga_runtime.OpenclDevice.Safety.{IsFine}
use fpga_runtime.OpenclDevice.Validity.{IsValid}
use fpga_runtime.Instance.{Device, Arg, xilinx_device, intel_device, invoke, has_stream}
use fpga_runtime.Instance.Arguments.{set_args-IsSafe}
use fpga_runtime.Instance.Returning.{AllTyped}
use fpga_runtime.Instance.Tracing.Invoking.{
  owner, returned, invoked, invoke-invoked, set_args-owner,
}
use fpga_runtime.Instance.Tracing.Intel.{IsBacked, placed_intel-IsBacked}
use fpga_runtime.Instance.Tracing.Intel.Invoking.{invoked_intel, invoke-invoked_intel}

-- Any number of calls of `Invoke`, one after the other, up to the first that throws.
unfoldable pub invokes : {S : Type 0} → Device S → List (List Arg) → Exec S (List (List Arg))
invokes d [] = pure []
invokes d (args ∷ rest) =
    let go_on = invokes d rest in do args' ← invoke d args; rest' ← go_on; pure (args' ∷ rest')

module _ (lib : Library) (made : List (ℕ × ℕ)) where
  -- The arguments that a Xilinx device returns, and the object that is left.
  abbrev pub returned_all : List (List Arg) → OpenclDevice → List (List Arg)
  returned_all [] s = []
  returned_all (args ∷ rest) s =
      returned lib made args s ∷ returned_all rest (invoked lib made args s)

  abbrev pub invoked_all : List (List Arg) → OpenclDevice → OpenclDevice
  invoked_all [] s = s
  invoked_all (args ∷ rest) s = invoked_all rest (invoked lib made args s)

  pub invoked-IsValid :
      Accepts lib
      → (args : List Arg) (s : OpenclDevice) → IsValid s
      → s.kernels ≡ assign_all (starts 0 made) []
      → length args ≤ total_args made
      → AllTyped args
      → IsValid (invoked lib made args s)
  invoked-IsValid a args s v table n h =
      (subst (λ (p : Result (List Arg) × OpenclDevice). IsFine p)
        (set_args-owner lib made args s a table n h) (set_args-IsSafe lib 0 args s v)).0

  -- With a library that turns nothing down, on a valid Xilinx device whose kernel table has the prefix
  -- sums of the argument lists of its kernels, any number of calls of `Invoke`, one after the other,
  -- return, if none has more arguments than there are in these lists and the streams of each are of
  -- one of the two classes. Each call starts from the object that the one before left: with its
  -- arguments set, in addition to what was set before, then loaded, launched and stored, and the queue
  -- finished if none of its own arguments is a stream; and each returns its arguments with the streams
  -- that it opened.
  pub invokes-invoked_all :
      (runs : List (List Arg)) (s : OpenclDevice)
      → Accepts lib
      → IsValid s
      → s.kernels ≡ assign_all (starts 0 made) []
      → All (λ (args : List Arg). length args ≤ total_args made) runs
      → All (λ (args : List Arg). AllTyped args) runs
      → invokes (xilinx_device lib) runs s ≡ (ok (returned_all runs s), invoked_all runs s)
  unfolding invokes
  invokes-invoked_all [] s a v table n h = refl
  invokes-invoked_all (args ∷ rest) s a v table n h =
      rw
        (
          invoke-invoked lib made args s a v table n.0 h.0,
          invokes-invoked_all rest (invoked lib made args s) a
              (invoked-IsValid a args s v table n.0 h.0) table n.1 h.1,
        )
        refl

  -- The same for an Intel device, which returns the arguments as they are.
  abbrev pub invoked_all_intel : List (List Arg) → OpenclDevice → OpenclDevice
  invoked_all_intel [] s = s
  invoked_all_intel (args ∷ rest) s = invoked_all_intel rest (invoked_intel lib made args s)

  -- With a library that turns nothing down, on an Intel device whose marked indices have a buffer and a
  -- host address, and whose kernel table has the prefix sums of the argument lists of its kernels, any
  -- number of calls of `Invoke`, one after the other, return, if none has more arguments than there
  -- are in these lists and none has a stream. Each call starts from the object that the one before
  -- left: with its arguments set, in addition to what was set before, then loaded, launched and
  -- stored, and the queue finished; and each returns its arguments as they were.
  pub invokes-invoked_all_intel :
      (runs : List (List Arg)) (s : OpenclDevice)
      → Accepts lib
      → IsBacked s
      → s.kernels ≡ assign_all (starts 0 made) []
      → All (λ (args : List Arg). length args ≤ total_args made) runs
      → All (λ (args : List Arg). has_stream args ≡ false) runs
      → invokes (intel_device lib) runs s ≡ (ok runs, invoked_all_intel runs s)
  unfolding invokes
  invokes-invoked_all_intel [] s a v table n h = refl
  invokes-invoked_all_intel (args ∷ rest) s a v table n h =
      rw
        (
          invoke-invoked_intel lib made args s a v table n.0 h.0,
          invokes-invoked_all_intel rest (invoked_intel lib made args s) a
              (placed_intel-IsBacked lib (owner made) 0 args s v) table n.1 h.1,
        )
        refl
