-- ===== src/Router.antt =====
-- The package router: the context of an invocation, and groups of handlers with middleware.
pub mod Context
pub mod Group
pub mod Params
