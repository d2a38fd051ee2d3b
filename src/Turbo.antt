-- ===== src/Turbo.antt =====
-- The turbo coder: srslte/lib/fec/tc_interl_lte.c and srslte/lib/fec/turbocoder.c.
pub mod Interleaver
pub mod Coder
pub mod Gentable
pub mod Encode
mod Tests
