-- ===== src/Ra.antt =====
-- srslte/lib/phch/ra.c: resource allocation. `Types` has the structures of
-- srslte/include/srslte/phch/ra.h, `Tbs` the transport block sizes, `Type2` the resource
-- indication value and the virtual resource block tables.
pub mod Types
pub mod Type2
pub mod Tbs
pub mod Grant
pub mod Ul
pub mod Dl
mod Tests
pub mod Riv
pub mod Gap
