-- ===== src/Universe.antt =====
-- lx_universe_config.c and lx_universe_config.h: the configuration of a universe.
pub mod Kinds
pub mod Config
pub mod Attributes
pub mod Getters
pub mod Increment
pub mod Invariant
pub mod Laws
