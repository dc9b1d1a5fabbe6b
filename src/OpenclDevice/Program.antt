-- ===== src/OpenclDevice/Program.antt =====
-- Which kernels of a program `OpenclDevice::Exec` launches, after the loop of `Initialize`.
use native.Mathlib.Nat.{add-zero}
use fpga_runtime.Common.{
  ℕ, zero, suc, ◌+◌, ◌<◌, ◌≡◌, refl, ap, ◌∙◌, List, [], ◌∷◌, ◌++◌, map, arith, All,
}
use fpga_runtime.Common.Int.{ℤ, pos, ◌<ℤ◌}
use fpga_runtime.Containers.Ordered.{OrderedMap, assign_all, IsAscending}
use fpga_runtime.Containers.Ordered.Assignments.{assign-assign, assign_all-append}
use fpga_runtime.Exec.{ok}
use fpga_runtime.Opencl.{Library, Accepts, enqueue_nd_range_kernel}
use fpga_runtime.Metadata.{XmlKernel}
use fpga_runtime.Metadata.Numbering.{prefix_sums}
use fpga_runtime.OpenclDevice.{OpenclDevice, exec}
use fpga_runtime.OpenclDevice.Initialize.{create_kernels}
use fpga_runtime.OpenclDevice.Kernels.{starts, made_kernels, create_calls, create_kernels_lem}
use fpga_runtime.OpenclDevice.Launching.{launch_calls, exec_lem}

-- The kernels, each with the number of its arguments, without those that have no argument and another
-- kernel behind them.
abbrev pub kept : List (ℕ × ℕ) → List (ℕ × ℕ)
kept [] = []
kept ((k, n) ∷ []) = (k, n) ∷ []
kept ((k, zero) ∷ x ∷ rest) = kept (x ∷ rest)
kept ((k, suc n) ∷ x ∷ rest) = (k, suc n) ∷ kept (x ∷ rest)

assign_all-kept :
    (base : ℕ) (ks : List (ℕ × ℕ)) (m : OrderedMap ℕ)
    → assign_all (starts base ks) m ≡ assign_all (starts base (kept ks)) m
unfolding assign_all
assign_all-kept base [] m = refl
assign_all-kept base ((k, n) ∷ []) m = refl
assign_all-kept base ((k, zero) ∷ (l, n) ∷ rest) m =
    rw (add-zero base, assign-assign (pos base) k l m) (assign_all-kept base ((l, n) ∷ rest) m)
assign_all-kept base ((k, suc n) ∷ x ∷ rest) m = assign_all-kept (base + suc n) (x ∷ rest) _

starts-after :
    (low base : ℕ) (ks : List (ℕ × ℕ)) → low < base → All (λ e. pos low <ℤ e.0) (starts base ks)
starts-after low base [] h = tt
starts-after low base ((k, n) ∷ rest) h =
    (omega arith, starts-after low (base + n) rest (omega arith))

starts-IsAscending : (base : ℕ) (ks : List (ℕ × ℕ)) → IsAscending (starts base (kept ks))
starts-IsAscending base [] = tt
starts-IsAscending base ((k, n) ∷ []) = (tt, tt)
starts-IsAscending base ((k, zero) ∷ x ∷ rest) = starts-IsAscending base (x ∷ rest)
starts-IsAscending base ((k, suc n) ∷ x ∷ rest) = (
  starts-after base (base + suc n) (kept (x ∷ rest)) (omega arith),
  starts-IsAscending (base + suc n) (x ∷ rest),
)

All-vacuous : (es : OrderedMap ℕ) → All (λ (e : ℤ × ℕ). All (λ (f : ℤ × ℕ). f.0 <ℤ e.0) []) es
All-vacuous [] = tt
All-vacuous (e ∷ es) = (tt, All-vacuous es)

-- The table that the loop of `Initialize` leaves.
kernels_table : (ks : List (ℕ × ℕ)) → assign_all (starts 0 ks) [] ≡ starts 0 (kept ks)
kernels_table ks =
    assign_all-kept 0 ks []
    ∙ assign_all-append (starts 0 (kept ks)) [] (starts-IsAscending 0 ks)
        (All-vacuous (starts 0 (kept ks)))

launch_calls-starts :
    (cmd : ℕ) (waits : List ℕ) (base : ℕ) (ks : List (ℕ × ℕ))
    → launch_calls cmd waits (starts base ks) ≡ map (λ k. enqueue_nd_range_kernel cmd k.0 waits) ks
launch_calls-starts cmd waits base [] = refl
launch_calls-starts cmd waits base ((k, n) ∷ rest) =
    ap (◌∷◌ (enqueue_nd_range_kernel cmd k waits)) (launch_calls-starts cmd waits (base + n) rest)

module _ (lib : Library) where
  -- With a library that turns nothing down and from an empty kernel table, the loop of `Initialize` on
  -- the metadata makes every kernel, in order, and a following `Exec` returns and launches every
  -- kernel, once and in order, except those without arguments that another kernel follows.
  pub exec-create_kernels :
      Accepts lib
      → (ks : List XmlKernel) (s : OpenclDevice) → s.kernels ≡ []
      → let s' = (create_kernels lib (map (λ k. k.name) ks) (prefix_sums 0 ks) s).1 in
        let (r, t) = exec lib s' in
        (r ≡ ok tt)
        × (t.calls
            ≡ (s.calls ++ create_calls lib s.program ks)
              ++ map
                  (λ k. enqueue_nd_range_kernel s.cmd k.0 s.load_event)
                  (kept (made_kernels lib s.calls s.program ks)))
  exec-create_kernels a ks s empty =
      rw
        (
          create_kernels_lem lib a 0 ks s,
          empty,
          kernels_table (made_kernels lib s.calls s.program ks),
          exec_lem lib a,
        )
        (
          refl,
          ap (λ l. (s.calls ++ create_calls lib s.program ks) ++ l)
              (launch_calls-starts s.cmd s.load_event 0 _),
        )
