-- ===== src/Examples.antt =====
-- The theorems at concrete inputs, component by component.
pub mod Bus
pub mod Frames
pub mod Descriptors
pub mod Chain
pub mod Gates
pub mod Rooms
pub mod FullWindow
pub mod Kernels
pub mod Links
pub mod Identifiers
pub mod Registry
pub mod Contracts
pub mod Levels
pub mod Booting
pub mod Moves
pub mod Server
