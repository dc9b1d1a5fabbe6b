-- ===== src/Tag.antt =====
-- src/frt/tag.h. The directions are the host's: it reads a `read_only` buffer, so the device stores.
use fpga_runtime.Common.{Bool, true, false, ◌||◌, ◌≡◌, refl}

pub data Tag : Type 0 where
  place_holder read_only write_only read_write : Tag

-- `tag == other`
unfoldable pub tag_eq : Tag → Tag → Bool
tag_eq place_holder place_holder = true
tag_eq read_only read_only = true
tag_eq write_only write_only = true
tag_eq read_write read_write = true
tag_eq _ _ = false

-- What the directions mean, whatever the devices test: the host reads the buffer.
unfoldable pub is_store : Tag → Bool
is_store read_only = true
is_store read_write = true
is_store _ = false

-- The host writes it.
unfoldable pub is_load : Tag → Bool
is_load write_only = true
is_load read_write = true
is_load _ = false

-- The tests of the devices on a tag.
pub tag_eq-is_store : (tag : Tag) → (tag_eq tag read_only || tag_eq tag read_write) ≡ is_store tag
unfolding tag_eq is_store
tag_eq-is_store place_holder = refl
tag_eq-is_store read_only = refl
tag_eq-is_store write_only = refl
tag_eq-is_store read_write = refl

pub tag_eq-is_load : (tag : Tag) → (tag_eq tag write_only || tag_eq tag read_write) ≡ is_load tag
unfolding tag_eq is_load
tag_eq-is_load place_holder = refl
tag_eq-is_load read_only = refl
tag_eq-is_load write_only = refl
tag_eq-is_load read_write = refl
