-- ===== src/Services.antt =====
-- app/services/: the business logic, as actions on the state.
pub mod Monitoring
pub mod Devices
pub mod Users
pub mod Backups
pub mod Interfaces
pub mod Alarms
