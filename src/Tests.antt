-- ===== src/Tests.antt =====
-- Concrete runs: each theorem that has hypotheses, at an input of the program.
pub mod Fixture
mod Zcl
pub mod Attributes
mod General
mod App
pub mod Wpan
mod Conversations
mod Device
pub mod Command
pub mod CommandList
mod Query
mod Crc
mod Radio
mod Text
mod Ring
