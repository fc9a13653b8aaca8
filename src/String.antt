-- ===== src/String.antt =====
-- src/EFString.c: text as bytes in an encoding.
pub mod Encoding
pub mod Utf8
pub mod Sequence
pub mod Utf7
pub mod Accepts
pub mod Model
pub mod Holds
pub mod Memory
pub mod Create
pub mod Edit
pub mod Numbers
pub mod Literals
pub mod NumberObjects
pub mod Trim
pub mod Trimmed
pub mod Append
pub mod Delete
pub mod Split
pub mod Cuts
pub mod Splitting
pub mod SplitSteps
pub mod SplitLoop
pub mod SplitEnds
pub mod SplitText
pub mod Compare
pub mod Prefix
pub mod Equality
mod Tests
