-- ===== src/Monitoring/Adapters.antt =====
-- app/monitoring/vendor_adapters.py: what is common to the vendors. Each vendor's commands and
-- parsers are in a module of their own.
mod Types
mod Blocks
pub mod Cisco
pub mod Huawei
pub mod Nokia
mod Registry
pub mod Tests
pub use Types.{VersionInfo, ParsedInterface, VendorAdapter}
unfoldable pub use Types.{round_hundredths, percent}
unfoldable pub use Registry.{get, vendor_adapters, unsupported, get_vendor_adapter}
