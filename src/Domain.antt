-- ===== src/Domain.antt =====
-- internal/domain and internal/errs: the values that the components exchange.
pub mod Errors
pub mod Status
pub mod Task
pub mod Execution
