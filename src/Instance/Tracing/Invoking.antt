-- ===== src/Instance/Tracing/Invoking.antt =====
-- All that `Instance::Invoke` does on a Xilinx device, for the argument lists of its kernels.
use fpga_runtime.Common.{
  ap, ℕ, ◌-◌, ◌<◌, ◌≤◌, ◌≡◌, refl, ◌∙◌, Bool-cases, inl, inr, Option, none, some, List, [], ◌∷◌,
  ◌++◌, length, ltb, arith,
}
use fpga_runtime.Common.Int.{ℤ, pos}
use fpga_runtime.Containers.Ordered.{OrderedMap, assign_all}
use fpga_runtime.Exec.{Result, ok}
use fpga_runtime.Opencl.{Library, Accepts}
use fpga_runtime.OpenclDevice.{OpenclDevice}
use fpga_runtime.OpenclDevice.Validity.{IsValid}
use fpga_runtime.OpenclDevice.Requests.{outcome}
use fpga_runtime.OpenclDevice.Kernels.{starts, total_args, locate, get_kernel-starts}
use fpga_runtime.Instance.{Arg, xilinx_device, set_args, invoke, has_stream}
use fpga_runtime.Instance.Returning.{AllTyped}
use fpga_runtime.Instance.Invocation.{
  finished, loaded, launched, stored, final_requests, invoke_lem,
}
use fpga_runtime.Instance.Tracing.{host_buffer, Places, placed, attached_args, set_args-placed}

-- The owner of an argument, where it has one.
abbrev or_first : Option (ℤ × ℕ) → ℤ × ℕ
or_first none = (pos 0, 0)
or_first (some x) = x

abbrev pub owner : List (ℕ × ℕ) → ℕ → ℤ × ℕ
owner made n = or_first (locate n made)

locate-owner :
    (n : ℕ) (made : List (ℕ × ℕ)) → n < total_args made → locate n made ≡ some (owner made n)
locate-owner n [] h = absurd (omega arith)
locate-owner n ((kernel, args) ∷ rest) h = elim (Bool-cases (ltb n args)) [
  | inl inside ↦ rw inside refl
  | inr behind ↦ rw behind (locate-owner (n - args) rest (ground arith))
]

pub owner-Places :
    (lib : Library) (made : List (ℕ × ℕ)) (kernels : OrderedMap ℕ) (n : ℕ)
    → kernels ≡ assign_all (starts 0 made) []
    → n ≤ total_args made
    → Places lib (owner made) kernels 0 n
owner-Places lib made kernels n table h i l u =
    rw table (get_kernel-starts i made (omega arith) ∙ locate-owner i made (omega arith))

-- The arguments that `Invoke` returns, and the object that it leaves.
abbrev pub returned : Library → List (ℕ × ℕ) → List Arg → OpenclDevice → List Arg
returned lib made args s =
    attached_args lib (owner made) (host_buffer s.context) s.device s.calls 0 args

abbrev pub invoked : Library → List (ℕ × ℕ) → List Arg → OpenclDevice → OpenclDevice
invoked lib made args s =
    finished lib (has_stream args)
      (stored lib (launched lib (loaded lib (placed lib (owner made) 0 args s))))

pub set_args-owner :
    (lib : Library) (made : List (ℕ × ℕ)) (args : List Arg) (s : OpenclDevice)
    → Accepts lib
    → s.kernels ≡ assign_all (starts 0 made) []
    → length args ≤ total_args made
    → AllTyped args
    → set_args (xilinx_device lib) 0 args s
      ≡ (ok (returned lib made args s), placed lib (owner made) 0 args s)
set_args-owner lib made args s a table n h =
    set_args-placed lib (owner made) a 0 args s
      (λ i l u. owner-Places lib made s.kernels (length args) table n i l (omega arith)) h

pub invoke-invoked :
    (lib : Library) (made : List (ℕ × ℕ)) (args : List Arg) (s : OpenclDevice)
    → Accepts lib
    → IsValid s
    → s.kernels ≡ assign_all (starts 0 made) []
    → length args ≤ total_args made
    → AllTyped args
    → invoke (xilinx_device lib) args s ≡ (ok (returned lib made args s), invoked lib made args s)
invoke-invoked lib made args s a v table n h =
    invoke_lem lib args _ s (placed lib (owner made) 0 args s) a v
      (set_args-owner lib made args s a table n h)

-- With a library that turns nothing down, on a valid Xilinx device whose kernel table has the prefix sums
-- of the argument lists of its kernels, `Invoke` with no more arguments than there are in them, of
-- which the streams are of one of the two classes, returns, with each stream attached to the one that
-- was opened for it. Its requests are, in this order: for each argument, to the kernel that owns it
-- and under its number there, the bytes of a scalar, the creation of a buffer over the host's memory
-- and the buffer, or the opening of a stream and the release of the one that the wrapper had; a
-- migration of the buffers to load, if any; a launch of every kernel of the table after the event of
-- that migration; a migration of the buffers to store, if any, after the events of those launches;
-- and, only if no argument is a stream, the flush and the wait for the queue.
pub invoke-placed :
    (lib : Library) (made : List (ℕ × ℕ)) (args : List Arg) (s : OpenclDevice)
    → Accepts lib
    → IsValid s
    → s.kernels ≡ assign_all (starts 0 made) []
    → length args ≤ total_args made
    → AllTyped args
    → let t = stored lib (launched lib (loaded lib (placed lib (owner made) 0 args s))) in
      outcome (invoke (xilinx_device lib) args s) ≡ (
        ok (attached_args lib (owner made) (host_buffer s.context) s.device s.calls 0 args),
        t.calls ++ final_requests lib (has_stream args) s.cmd,
      )
invoke-placed lib made args s a v table n h =
    ap (λ (r : Result (List Arg) × OpenclDevice). outcome r)
      (invoke-invoked lib made args s a v table n h)
