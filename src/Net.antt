-- ===== src/Net.antt =====
-- lx_net.c and lx_net.h: addresses and network adapters.
pub mod Broadcast
pub mod Adapter
