-- ===== src/Opendeck.antt =====
-- The broker of opendeck-broker: one process that owns the six keys of a Stream Deck Mini.
pub mod Model
pub mod Objects
pub mod Registry
pub mod Focus
pub mod Device
pub mod Broker
pub mod Process
pub mod Paths
pub mod Observe
pub mod Adapter
mod Samples
pub mod Routes
pub mod Messages
pub mod Api
pub mod Main
