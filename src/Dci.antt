-- ===== src/Dci.antt =====
-- srslte/lib/phch/dci.c
pub mod SizeTable
pub mod Size
pub mod Msg
pub mod Format0
pub mod Format1
pub mod Format1C
pub mod Format1A
pub mod Format2
pub mod Rar
pub mod Dispatch
mod Tests
