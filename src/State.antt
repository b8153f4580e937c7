-- ===== src/State.antt =====
-- The package state: keys, transformers, the chaincode state and its wrappers.
pub mod Stub
pub mod Key
pub mod Transformer
pub mod Impl
pub mod Cached
pub mod Event
pub mod Invoke
