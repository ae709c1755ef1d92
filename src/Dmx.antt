-- ===== src/Dmx.antt =====
-- lx_dmx.c and lx_dmx.h: universe numbers in the Art-Net and sACN formats.
pub mod Digits
pub mod Artnet
pub mod Multicast
