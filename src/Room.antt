-- ===== src/Room.antt =====
-- A game room: src/Logic/Room.h and src/Logic/Room.cpp.
pub mod State
pub mod Game
pub mod Members
pub mod Termination
pub mod Invariant
pub mod Steps
pub mod Effects
pub mod Validity
pub mod Taking
pub mod Joining
pub mod Start
pub mod Fresh
pub mod History
pub mod Infos
pub mod Roundtrip
pub mod Users
pub mod Messages
pub mod Calm
pub mod Frames
pub mod Operations
pub mod Closing
mod Examples
