-- ===== src/Dao.antt =====
-- internal/repository/dao: the statements on the two tables.
pub mod Task
pub mod Execution
