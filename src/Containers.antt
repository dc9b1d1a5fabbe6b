-- ===== src/Containers.antt =====
-- The standard containers that the program uses: `std::unordered_map`, `std::unordered_set` and
-- `std::map` with `int` keys. An unordered container is a list in the order in which a range-for
-- meets its elements; the theorems hold for every such list.
pub mod Maps
pub mod Sets
pub mod Ordered
pub mod Sort
