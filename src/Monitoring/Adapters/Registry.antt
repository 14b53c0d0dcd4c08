-- ===== src/Monitoring/Adapters/Registry.antt =====
-- `VENDOR_ADAPTERS` and `get_vendor_adapter` of app/monitoring/vendor_adapters.py.
use net_auto_ops.Base.{Option, none, some, List, [], ◌∷◌, map, ◌++◌, if◌then◌else◌}
use net_auto_ops.Base.Sort.{sort}
use net_auto_ops.Base.Text.{Text, text, text_eq, text_le, strip, lower, join}
use net_auto_ops.Exec.{unsupported_platform, Result, ok, raised}
use net_auto_ops.Monitoring.Adapters.Types.{VendorAdapter}
use net_auto_ops.Monitoring.Adapters.Cisco.{cisco}
use net_auto_ops.Monitoring.Adapters.Huawei.{huawei}
use net_auto_ops.Monitoring.Adapters.Nokia.{nokia}

unfoldable pub vendor_adapters : List (Text × VendorAdapter)
vendor_adapters = (text "cisco", cisco) ∷ (text "huawei", huawei) ∷ (text "nokia", nokia) ∷ []

unfoldable pub get : Text → List (Text × VendorAdapter) → Option VendorAdapter
get key [] = none
get key ((k, adapter) ∷ rest) =
    let other = get key rest in if text_eq k key then some adapter else other

-- The message of `UnsupportedPlatformError`.
unfoldable pub unsupported : Text → Text
unsupported vendor =
    text "No monitoring adapter available for vendor '"
    ++ vendor
    ++ text "'. Supported vendors: "
    ++ join (text ", ") (sort text_le (map (λ e. e.0) vendor_adapters))

unfoldable pub get_vendor_adapter : Text → Result VendorAdapter
get_vendor_adapter vendor = elim (get (lower (strip vendor)) vendor_adapters) [
  | some adapter ↦ ok adapter
  | none ↦ raised (unsupported_platform (unsupported vendor))
]
