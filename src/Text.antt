-- ===== src/Text.antt =====
-- Strings and byte slices as lists of bytes, with what the program calls of the Rust standard
-- library: Cuts (`==`, `strip_prefix`, `split_once`, `position`), Lines (`split_inclusive`,
-- `str::lines`), Utf8 (`str::from_utf8`), Radix (`from_str_radix`, `{}` and `{:o}` of integers),
-- Plain (texts without separators), Blocks (a header of lines and a message), Order (`Ord` of byte slices, the stable `sort_by`).
pub mod Cuts
pub mod Lines
pub mod Utf8
pub mod Radix
pub mod Plain
pub mod Order
pub mod Blocks
pub mod Fields
pub mod Trim
pub mod Parts
