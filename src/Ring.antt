-- ===== src/Ring.antt =====
-- The ring of entries that src/theo/cell_body.c keeps in the slab, as lists of chunks.
pub mod Add
pub mod Cells
pub mod Chain
pub mod Contents
pub mod Evict
pub mod Fresh
pub mod Gap
pub mod History
pub mod Left
pub mod Listed
pub mod Lower
pub mod Merge
pub mod Metrics
pub mod Offset
pub mod Part
pub mod Past
pub mod Room
pub mod Store
pub mod Stuck
pub mod Fill
pub mod Find
pub mod Finish
pub mod Taken
pub mod Top
pub mod Push
pub mod Rest
pub mod Place
