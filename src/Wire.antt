-- ===== src/Wire.antt =====
-- lxmax/internals/packets: the packets of Art-Net and sACN.
pub mod Bytes
pub mod Artnet
pub mod Sacn
