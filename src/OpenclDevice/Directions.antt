-- ===== src/OpenclDevice/Directions.antt =====
-- Which buffers are transferred: the marks that `SetBufferArg` makes and `SuspendBuffer` takes back.
use fpga_runtime.Common.{
  ◌+◌, ◌≡◌, refl, Bool, true, false, ◌&&◌, ◌||◌, not, List, arith, if◌then◌else◌,
}
use fpga_runtime.Common.Eq.{int_Eq, ◌==◌}
use fpga_runtime.Common.Int.{ℤ}
use fpga_runtime.Containers.Sets
use fpga_runtime.Containers.Sets.{contains, contains-insert, contains-erase, erase_count_lem}
use fpga_runtime.Exec.{ok}
use fpga_runtime.Tag.{Tag, is_store, is_load, tag_eq-is_store, tag_eq-is_load}
use fpga_runtime.OpenclDevice.{OpenclDevice, mark_direction, suspend_buffer}
use fpga_runtime.OpenclDevice.Validity.{IsValid}

pub contains-insert_if :
    (t : Bool) (index j : ℤ) (s : List ℤ)
    → contains j (if t then Sets.insert index s else s) ≡ ((j == index && t) || contains j s)
contains-insert_if true index j s = rw (contains-insert index j s) (ground arith)
contains-insert_if false index j s = ground arith

-- After `SetBufferArg` has marked an argument, an index is stored exactly if it was before, or it is
-- that argument and its tag is read-only or read-write, and loaded exactly if it was before, or it is
-- that argument and its tag is write-only or read-write; nothing is ever unmarked.
pub mark_direction_lem :
    (index j : ℤ) (tag : Tag) (s : OpenclDevice)
    → let t = mark_direction index tag s in
      (contains j t.store_indices ≡ ((j == index && is_store tag) || contains j s.store_indices))
      × (contains j t.load_indices ≡ ((j == index && is_load tag) || contains j s.load_indices))
unfolding mark_direction
mark_direction_lem index j tag s = (
  rw (← tag_eq-is_store tag) (contains-insert_if _ index j s.store_indices),
  rw (← tag_eq-is_load tag) (contains-insert_if _ index j s.load_indices),
)

-- On a valid device `SuspendBuffer` returns the number of directions in which the argument was marked,
-- takes the argument out of both sets, leaves every other index in them, and makes no request.
pub suspend_buffer_lem :
    (index j : ℤ) (s : OpenclDevice)
    → IsValid s
    → let (r, t) = suspend_buffer index s in
      (r
        ≡ ok (
            (if contains index s.load_indices then 1 else 0)
            + (if contains index s.store_indices then 1 else 0)))
      × (contains j t.load_indices ≡ (not (j == index) && contains j s.load_indices))
      × (contains j t.store_indices ≡ (not (j == index) && contains j s.store_indices))
      × (t.calls ≡ s.calls)
unfolding suspend_buffer
suspend_buffer_lem index j s v = (
  rw (erase_count_lem index s.load_indices, erase_count_lem index s.store_indices),
  contains-erase index j s.load_indices v.load.distinct,
  contains-erase index j s.store_indices v.store.distinct,
  refl,
)
