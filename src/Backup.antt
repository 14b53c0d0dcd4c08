-- ===== src/Backup.antt =====
-- app/backup/
pub mod Storage
