-- ===== src/Mock.antt =====
-- testing/mockstub.go: the stub for tests.
pub mod Keys
pub mod PrivateData
pub mod MockStub
