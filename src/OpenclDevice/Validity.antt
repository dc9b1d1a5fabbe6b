-- ===== src/OpenclDevice/Validity.antt =====
-- The invariant of the tables of an OpenCL device: what is to be transferred has a buffer.
use fpga_runtime.Common.{
  ℕ, ◌≡◌, refl, Bool, true, false, some, List, [], ◌∷◌, map, if◌then◌else◌, arith,
}
use fpga_runtime.Common.Eq.{int_Eq}
use fpga_runtime.Common.Int.{int_eq_iff, ℤ}
use fpga_runtime.Containers.Maps
use fpga_runtime.Containers.Maps.{has_key-insert, Map, has_key-assign, lookup_of_has_key}
use fpga_runtime.Containers.Sets
use fpga_runtime.Containers.Sets.{
  contains, IsDistinct, contains-insert, insert-IsDistinct, contains-erase, erase-IsDistinct,
  contains-head, contains-tail,
}
use fpga_runtime.Tag.{Tag}
use fpga_runtime.OpenclDevice.{or_null, OpenclDevice, mark_direction, buffers_at, suspend_buffer}

-- A set of indices without repetitions, each with an entry in the table.
pub record Backed (table : Map ℤ ℕ) (indices : List ℤ) : Type 0 where
  pub distinct : IsDistinct indices
  pub backed : (i : ℤ) → contains i indices ≡ true → Maps.has_key i table ≡ true

pub record Tables (table : Map ℤ ℕ) (loads stores : List ℤ) : Type 0 where
  pub load : Backed table loads
  pub store : Backed table stores

abbrev pub IsValid : OpenclDevice → Type 0
IsValid s = Tables s.buffer_table s.load_indices s.store_indices

Backed-assign :
    (index : ℤ) (v : ℕ) (table : Map ℤ ℕ) (indices : List ℤ)
    → Backed table indices
    → Backed (Maps.assign index v table) indices
Backed-assign index v table indices b = record {
  distinct = b.distinct;
  backed = λ i h. rw (has_key-assign index i v table) (ground (arith, b.backed i h));
}

Backed-insert :
    (index : ℤ) (table : Map ℤ ℕ) (indices : List ℤ)
    → Maps.has_key index table ≡ true
    → Backed table indices
    → Backed table (Sets.insert index indices)
Backed-insert index table indices key b = record {
  distinct = insert-IsDistinct index indices b.distinct;
  backed = λ i h. ground (arith, b.backed i, contains-insert index i indices, int_eq_iff i index);
}

Backed-erase :
    (index : ℤ) (table : Map ℤ ℕ) (indices : List ℤ)
    → Backed table indices
    → Backed table (Sets.erase index indices)
Backed-erase index table indices b = record {
  distinct = erase-IsDistinct index indices b.distinct;
  backed = λ i h. ground (arith, b.backed i, contains-erase index i indices b.distinct);
}

Backed-insert_if :
    (t : Bool) (index : ℤ) (table : Map ℤ ℕ) (indices : List ℤ)
    → Maps.has_key index table ≡ true
    → Backed table indices
    → Backed table (if t then Sets.insert index indices else indices)
Backed-insert_if true index table indices key b = Backed-insert index table indices key b
Backed-insert_if false index table indices key b = b

-- The marks of an index that has a buffer.
pub mark_direction-IsValid :
    (index : ℤ) (tag : Tag) (s : OpenclDevice)
    → Maps.has_key index s.buffer_table ≡ true
    → IsValid s
    → IsValid (mark_direction index tag s)
unfolding mark_direction
mark_direction-IsValid index tag s key h = record {
  load = Backed-insert_if _ index s.buffer_table s.load_indices key h.load;
  store = Backed-insert_if _ index s.buffer_table s.store_indices key h.store;
}

-- A buffer for one more index, or another one.
pub assign-IsValid :
    (index : ℤ) (v : ℕ) (s : OpenclDevice)
    → IsValid s
    → IsValid (record s { buffer_table = Maps.assign index v s.buffer_table })
assign-IsValid index v s h = record {
  load = Backed-assign index v s.buffer_table s.load_indices h.load;
  store = Backed-assign index v s.buffer_table s.store_indices h.store;
}

Backed-table :
    (a b : Map ℤ ℕ) (indices : List ℤ)
    → ((i : ℤ) → Maps.has_key i a ≡ true → Maps.has_key i b ≡ true)
    → Backed a indices
    → Backed b indices
Backed-table a b indices keys h = record {
  distinct = h.distinct;
  backed = λ i there. keys i (h.backed i there);
}

pub insert-IsValid :
    (index : ℤ) (v : ℕ) (s : OpenclDevice)
    → IsValid s
    → IsValid (record s { buffer_table = Maps.insert index v s.buffer_table })
insert-IsValid index v s h =
    let keys : (i : ℤ)
        → Maps.has_key i s.buffer_table ≡ true
        → Maps.has_key i (Maps.insert index v s.buffer_table) ≡ true =
      λ i k. rw (has_key-insert index i v s.buffer_table) (ground arith) in
    record {
      load = Backed-table s.buffer_table _ s.load_indices keys h.load;
      store = Backed-table s.buffer_table _ s.store_indices keys h.store;
    }

pub suspend_buffer-IsValid :
    (index : ℤ) (s : OpenclDevice) → IsValid s → IsValid (suspend_buffer index s).1
unfolding suspend_buffer
suspend_buffer-IsValid index s h = record {
  load = Backed-erase index s.buffer_table s.load_indices h.load;
  store = Backed-erase index s.buffer_table s.store_indices h.store;
}

-- The buffer of an index, and null where it has none.
abbrev pub buffer_of : Map ℤ ℕ → ℤ → ℕ
buffer_of table i = or_null (Maps.lookup i table)

buffers_at-some :
    (table : Map ℤ ℕ) (indices : List ℤ)
    → ((i : ℤ) → contains i indices ≡ true → Maps.has_key i table ≡ true)
    → buffers_at table indices ≡ some (map (buffer_of table) indices)
unfolding buffers_at
buffers_at-some table [] h = refl
buffers_at-some table (i ∷ rest) h =
    let (b, found) = lookup_of_has_key i table (h i (contains-head i rest)) in
    rw found (rw (buffers_at-some table rest (λ j there. h j (contains-tail j i rest there))))

-- So the tables always hold what `GetLoadBuffers` and `GetStoreBuffers` look up.
pub buffers_at-Backed :
    (table : Map ℤ ℕ) (indices : List ℤ)
    → Backed table indices
    → buffers_at table indices ≡ some (map (buffer_of table) indices)
buffers_at-Backed table indices b = buffers_at-some table indices b.backed
