-- ===== src/Monitoring.antt =====
-- app/monitoring/: the vendor adapters with the regular expressions that they search by, the
-- reachability check, and the netmiko client.
pub mod Regex
pub mod Adapters
pub mod Reachability
pub mod Netmiko
