-- ===== src/Api.antt =====
-- app/api/: access control and the handlers, and app/main.py, which puts them together.
pub mod Access
pub mod Auth
pub mod Errors
pub mod Schemas
pub mod Devices
pub mod Backups
pub mod Monitoring
pub mod Interfaces
pub mod Alarms
pub mod Events
pub mod Scheduler
pub mod App
