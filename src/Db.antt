-- ===== src/Db.antt =====
-- app/models.py and app/db.py: the tables, their rows, the queries, and the session through which a
-- request reads and writes them.
pub mod Table
pub mod Models
pub mod Session
