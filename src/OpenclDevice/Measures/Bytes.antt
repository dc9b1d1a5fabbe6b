-- ===== src/OpenclDevice/Measures/Bytes.antt =====
-- `LoadBytes` and `StoreBytes` of an OpenCL device.
use fpga_runtime.OpenclUtil.{Place}
use mathlib.Core.List.{append-nil, append_assoc}
use native.Mathlib.Nat.{mod-add-mod}
use fpga_runtime.Common.{◌≡◌, ℕ, ◌+◌, ◌%◌, ◌^◌, List, [], ◌∷◌, ◌++◌, map, arith, ap, refl}
use fpga_runtime.Exec.{ok}
use fpga_runtime.Opencl.{Library, Call, Accepts, get_mem_size}
use fpga_runtime.OpenclDevice.{OpenclDevice}
use fpga_runtime.OpenclDevice.Profile.{sum_sizes, load_bytes, store_bytes}
use fpga_runtime.OpenclDevice.Requests.{checked_ok}
use fpga_runtime.OpenclDevice.Validity.{IsValid, buffer_of}
use fpga_runtime.XilinxDevice.Transfers.{get_load_buffers_lem, get_store_buffers_lem}

module _ (lib : Library) where
  -- The sizes that the library gives for the buffers, one question after the other, added up.
  abbrev pub total_size : List Call → List ℕ → ℕ
  total_size before [] = 0
  total_size before (buffer ∷ buffers) =
      let c = get_mem_size buffer in
      (lib.respond before c).value + total_size (before ++ c ∷ []) buffers

  abbrev pub size_calls : List ℕ → List Call
  size_calls buffers = map get_mem_size buffers

  sum_sizes_lem :
      (at : Place)
      → Accepts lib
      → (total : ℕ) (buffers : List ℕ) (s : OpenclDevice)
      → sum_sizes lib at (total % 2 ^ 64) buffers s ≡ (
        ok ((total + total_size s.calls buffers) % 2 ^ 64),
        record s { calls = s.calls ++ size_calls buffers },
      )
  unfolding sum_sizes
  sum_sizes_lem at a total [] s = rw append-nil (ap (λ n. (ok (n % 2 ^ 64), s)) (omega arith))
  sum_sizes_lem at a total (buffer ∷ buffers) s =
      let c = get_mem_size buffer in
      let v = (lib.respond s.calls c).value in
      rw
        (
          checked_ok lib _ c s (a s.calls c),
          mod-add-mod total (2 ^ 64) v,
          sum_sizes_lem at a (total + v) buffers (record s { calls = s.calls ++ c ∷ [] }),
        )
        (rw append_assoc (
          ap (λ n. (ok (n % 2 ^ 64), record s { calls = s.calls ++ size_calls (buffer ∷ buffers) }))
            (omega arith)))

  sum_sizes_zero :
      (at : Place)
      → Accepts lib
      → (buffers : List ℕ) (s : OpenclDevice)
      → sum_sizes lib at 0 buffers s ≡ (
        ok (total_size s.calls buffers % 2 ^ 64),
        record s { calls = s.calls ++ size_calls buffers },
      )
  sum_sizes_zero at a buffers s =
      let zero_plus : 0 + total_size s.calls buffers ≡ total_size s.calls buffers = omega arith in
      rw (← zero_plus) (sum_sizes_lem at a 0 buffers s)

  -- With a library that turns nothing down, `LoadBytes` and `StoreBytes` of a valid device return the
  -- sum of the sizes of the buffers of all indices to load, or to store, as the library gives them,
  -- modulo 2 ^ 64; they ask for each size once and change nothing but the log.
  pub bytes_lem :
      Accepts lib
      → (s : OpenclDevice) → IsValid s
      → let loads = map (buffer_of s.buffer_table) s.load_indices in
        let stores = map (buffer_of s.buffer_table) s.store_indices in
        (load_bytes lib s ≡ (
          ok (total_size s.calls loads % 2 ^ 64),
          record s { calls = s.calls ++ size_calls loads },
        ))
        × (store_bytes lib s ≡ (
          ok (total_size s.calls stores % 2 ^ 64),
          record s { calls = s.calls ++ size_calls stores },
        ))
  unfolding load_bytes store_bytes
  bytes_lem a s v = (
    rw (get_load_buffers_lem s s.load_indices v refl) (sum_sizes_zero _ a _ s),
    rw (get_store_buffers_lem s s.store_indices v refl) (sum_sizes_zero _ a _ s),
  )
