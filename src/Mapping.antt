-- ===== src/Mapping.antt =====
-- The package state/mapping: keys and indexes of entities by the types of their schemas.
pub mod Schema
pub mod Keyers
pub mod StateMappings
pub mod KeyRefs
pub mod Options
pub mod Diff
pub mod Interface
pub mod MappedState
pub mod Views
pub mod Spec
pub mod Events
pub mod Index
pub mod Filled
