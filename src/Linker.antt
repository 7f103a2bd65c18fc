-- ===== src/Linker.antt =====
-- src/backend/linker/: the linker and the ELF files that it writes.
pub mod Elf
pub mod Layout
pub mod Image
pub mod Link
pub mod Patch
pub mod Shift
pub mod Pieces
pub mod Rounds
pub mod Relocate
pub mod Placement
pub mod Strings
pub mod Tests
pub mod Reader
pub mod Sections
