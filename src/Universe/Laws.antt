-- ===== src/Universe/Laws.antt =====
-- What the setters and getters of a configuration do to one another.
pub mod Kind
pub mod ReadBack
pub mod Unicast
pub mod Interface
