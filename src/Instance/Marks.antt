-- ===== src/Instance/Marks.antt =====
-- The directions of buffers as a host sees them, and what a device's methods owe them: the contract of
-- `SetBufferArg` and `SuspendBuffer` in src/frt/device.h, as laws over the two sets of a device.
pub mod Invoking
use fpga_runtime.Common.{
  ℕ, ◌+◌, ◌≡◌, refl, ap, ◌∙◌, Bool, true, false, not, ◌&&◌, ◌||◌, List, [], ◌∷◌, if◌then◌else◌,
}
use fpga_runtime.Common.Eq.{◌==◌, int_Eq}
use fpga_runtime.Common.Int.{ℤ}
use fpga_runtime.Containers.Sets
use fpga_runtime.Containers.Sets.{
  contains, IsDistinct, contains-erase, erase-IsDistinct, insert-IsDistinct, erase_count_lem,
}
use fpga_runtime.Exec.{Exec, Result, ok, err, continue, pure, ◌>>◌}
use fpga_runtime.Exec.Frames.{Keeps}
use fpga_runtime.Tag.{Tag, is_load, is_store}
use fpga_runtime.Buffer.{BufferArg}
use fpga_runtime.Streams.{StreamWrapper}
use fpga_runtime.OpenclDevice.Directions.{contains-insert_if}
use fpga_runtime.Instance.{Device}

-- The indices to load and those to store.
abbrev pub Marks : Type 0
Marks = List ℤ × List ℤ

-- Those after a buffer argument, and after a suspension.
abbrev pub marked : ℤ → Tag → Marks → Marks
marked index tag (loads, stores) = (
  if is_load tag then Sets.insert index loads else loads,
  if is_store tag then Sets.insert index stores else stores,
)

abbrev pub erased : ℤ → Marks → Marks
erased index (loads, stores) = (Sets.erase index loads, Sets.erase index stores)

-- The laws of a device, for the two sets of its state.
pub record Marking {S : Type 0} (d : Device S) (view : S → Marks) : Type 0 where
  pub set_scalar-Keeps : (index : ℤ) (arg : List ℕ) → Keeps view (d.set_scalar index arg)
  pub set_buffer-marks :
      (index : ℤ) (tag : Tag) (arg : BufferArg) (s : S)
      → view (d.set_buffer index tag arg s).1 ≡ marked index tag (view s)
  pub set_stream-Keeps :
      (index : ℤ) (tag : Tag) (w : StreamWrapper) → Keeps view (d.set_stream index tag w)
  pub suspend-marks : (index : ℤ) (s : S) → view (d.suspend index s).1 ≡ erased index (view s)
  pub suspend-count :
      (index : ℤ) (s : S)
      → (d.suspend index s).0
        ≡ ok (Sets.erase_count index (view s).0 + Sets.erase_count index (view s).1)
  pub write-Keeps : Keeps view d.write
  pub read-Keeps : Keeps view d.read
  pub run-Keeps : Keeps view d.run
  pub finish-Keeps : Keeps view d.finish

-- What a host expects: which arguments the next transfers move, in each direction.
pub record Directions : Type 0 where
  pub loads : ℤ → Bool
  pub stores : ℤ → Bool

-- A host's call of a method.
pub data Command : Type 0 where
  set_scalar : (index : ℤ) (arg : List ℕ) → Command
  set_buffer : (index : ℤ) (tag : Tag) (arg : BufferArg) → Command
  set_stream : (index : ℤ) (tag : Tag) (w : StreamWrapper) → Command
  suspend : (index : ℤ) → Command
  write read run finish : Command

-- A buffer argument gets the directions of its tag besides those that it has, a suspended one none.
unfoldable pub expect : Command → Directions → Directions
expect (set_buffer index tag arg) d = record {
  loads = λ j. (j == index && is_load tag) || d.loads j;
  stores = λ j. (j == index && is_store tag) || d.stores j;
}
expect (suspend index) d = record {
  loads = λ j. not (j == index) && d.loads j;
  stores = λ j. not (j == index) && d.stores j;
}
expect _ d = d

unfoldable pub expect_all : List Command → Directions → Directions
expect_all [] d = d
expect_all (c ∷ cs) d = expect_all cs (expect c d)

-- In how many directions the next transfers move an argument.
unfoldable pub directions_of : ℤ → Directions → ℕ
directions_of index d = (if d.loads index then 1 else 0) + (if d.stores index then 1 else 0)

-- Sets without repetitions that hold exactly what is expected.
abbrev pub Refines : Marks → Directions → Type 0
Refines (loads, stores) d =
    IsDistinct loads
    × IsDistinct stores
    × ((j : ℤ) → (contains j loads ≡ d.loads j) × (contains j stores ≡ d.stores j))

-- A call of a device's method, whose result is left aside.
unfoldable pub call : {S : Type 0} → Device S → Command → Exec S (Unit {0})
call d (set_scalar index arg) = d.set_scalar index arg
call d (set_buffer index tag arg) = d.set_buffer index tag arg
call d (set_stream index tag w) = do d.set_stream index tag w; pure tt
call d (suspend index) = do d.suspend index; pure tt
call d write = d.write
call d read = d.read
call d run = d.run
call d finish = d.finish

insert_if-IsDistinct :
    (b : Bool) (index : ℤ) (s : List ℤ)
    → IsDistinct s
    → IsDistinct (if b then Sets.insert index s else s)
insert_if-IsDistinct true index s d = insert-IsDistinct index s d
insert_if-IsDistinct false index s d = d

pub marked-Refines :
    (index : ℤ) (tag : Tag) (arg : BufferArg) (m : Marks) (d : Directions)
    → Refines m d
    → Refines (marked index tag m) (expect (set_buffer index tag arg) d)
unfolding expect
marked-Refines index tag arg (loads, stores) d (dl, du, r) = (
  insert_if-IsDistinct (is_load tag) index loads dl,
  insert_if-IsDistinct (is_store tag) index stores du,
  λ j. (
    rw (contains-insert_if (is_load tag) index j loads, (r j).0),
    rw (contains-insert_if (is_store tag) index j stores, (r j).1),
  ),
)

erased-Refines :
    (index : ℤ) (m : Marks) (d : Directions)
    → Refines m d
    → Refines (erased index m) (expect (suspend index) d)
unfolding expect
erased-Refines index (loads, stores) d (dl, du, r) = (
  erase-IsDistinct index loads dl,
  erase-IsDistinct index stores du,
  λ j. (
    rw (contains-erase index j loads dl, (r j).0),
    rw (contains-erase index j stores du, (r j).1),
  ),
)

discard_result : {S A : Type 0} (r : Result A) (s : S) → (continue r (λ _. pure tt) s).1 ≡ s
discard_result (ok a) s = refl
discard_result (err e) s = refl

-- The object after a method whose result is left aside.
discard : {S A : Type 0} (m : Exec S A) (s : S) → ((m >> pure tt) s).1 ≡ (m s).1
discard m s = discard_result (m s).0 (m s).1

module _ {S : Type 0} (d : Device S) (view : S → Marks) (m : Marking d view) where
  -- One call.
  pub call-Refines :
      (c : Command) (s : S) (e : Directions)
      → Refines (view s) e
      → Refines (view (call d c s).1) (expect c e)
  unfolding call expect
  call-Refines (set_scalar index arg) s e r = rw (m.set_scalar-Keeps index arg s) r
  call-Refines (set_buffer index tag arg) s e r =
      rw (m.set_buffer-marks index tag arg s) (marked-Refines index tag arg (view s) e r)
  call-Refines (set_stream index tag w) s e r =
      rw (discard (d.set_stream index tag w) s, m.set_stream-Keeps index tag w s) r
  call-Refines (suspend index) s e r =
      rw (discard (d.suspend index) s, m.suspend-marks index s) (erased-Refines index (view s) e r)
  call-Refines write s e r = rw (m.write-Keeps s) r
  call-Refines read s e r = rw (m.read-Keeps s) r
  call-Refines run s e r = rw (m.run-Keeps s) r
  call-Refines finish s e r = rw (m.finish-Keeps s) r

  pub suspend-Refines :
      (index : ℤ) (s : S) (e : Directions)
      → Refines (view s) e
      → (d.suspend index s).0 ≡ ok (directions_of index e)
  unfolding directions_of
  suspend-Refines index s e (dl, du, r) = rw (
    m.suspend-count index s,
    erase_count_lem index (view s).0,
    erase_count_lem index (view s).1,
    (r index).0,
    (r index).1,
  )
