-- ===== src/Array.antt =====
-- src/EFArray.c: growable arrays of pointers with retain and release callbacks.
-- An `EFArrayRef` is an optional record, `none` for NULL; a pointer is a number, 0 for NULL.
pub mod Model
pub mod Holds
pub mod Capacity
pub mod Append
pub mod Cells
pub mod Insert
pub mod Remove
pub mod Bulk
pub mod Range
pub mod AppendArray
pub mod Create
pub mod Overrun
pub mod Handlers
mod Tests
