-- ===== src/Bus.antt =====
-- pkg/bus: the message bus, as interleavings of its publishers, its consumers and Close.
pub mod Defs
pub mod Steps
pub mod Invariant
pub mod Closing
