-- ===== src/Examples.antt =====
-- The theorems at concrete inputs.
mod Monitoring
mod Interfaces
mod Alerts
mod Scheduler
mod Devices
mod Access
mod Backup
mod App
