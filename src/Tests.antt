-- ===== src/Tests.antt =====
-- Tests, and the theorems at concrete inputs.
mod MappingMemory
mod Erc20Tests
mod ParamsTests
mod EventMappingTests
mod MockTests
mod Memory
mod StateTests
mod ListTests
mod EncryptionTests
mod RouterTests
mod OwnerTests
mod MiddlewareTests
mod CPaperTests
mod CarsTests
mod DebugTests
