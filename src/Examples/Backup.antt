-- ===== src/Examples/Backup.antt =====
-- The theorems on backup paths, at the names of devices.
use net_auto_ops.Base.{none, some, ◌≡◌, ◌≢◌, refl, true, [], ◌∷◌, All}
use net_auto_ops.Base.Text.{Text, text, strip_of, text_eq, lower, strip}
use net_auto_ops.Models.{DeviceBackup, BackupStatus}
use net_auto_ops.Exec.{ok}
use net_auto_ops.World.{commit}
use net_auto_ops.Monitoring.Adapters.{VendorAdapter, get, vendor_adapters, get_vendor_adapter}
use net_auto_ops.Monitoring.Netmiko.{fetch_running_config, open_connection}
use net_auto_ops.Alerts.Service.{dispatch_event, deliver_event}
use net_auto_ops.Services.Backups.{
  run_backup, attempt_backup, store_file, conclude_backup, save_backup, add_backup, backup_row,
  dispatch_backup_event,
}
use net_auto_ops.Services.Backups.Truthful.{run_backup-Written}
use net_auto_ops.Sample.{env, device, world}
use net_auto_ops.Backup.Storage.{
  backup_filename, backup_path, utf8_size, build_backup_target, write_backup_file, is_slug_char,
  slugify,
}
use net_auto_ops.Backup.Storage.Slugs.{slugify-IsSlug, slugify_fixed}

slugify-IsSlug_example :
    All (λ c. is_slug_char c ≡ true) (slugify (text "Core / 1")) × (slugify (text "Core / 1") ≢ [])
slugify-IsSlug_example = slugify-IsSlug (text "Core / 1")

-- A name that leaves the directory of its vendor.
slugify_fixed_example : slugify (b'.' ∷ b'.' ∷ []) ≡ b'.' ∷ b'.' ∷ []
unfolding is_slug_char strip_of
slugify_fixed_example = slugify_fixed (b'.' ∷ b'.' ∷ []) (refl, (refl, tt)) refl (λ e. cc)

-- A backup of the sample device.
abbrev saved : DeviceBackup
saved = backup_row 1 1 5 (record {
  status = BackupStatus.success;
  filename = some (backup_filename env 5 (text "core-1"));
  file_path = some (backup_path env 5 (text "Cisco") (text "core-1"));
  backup_size = some (utf8_size []);
  error_message = none;
})

run_backup-Written_example :
    (adapter : VendorAdapter) × (config : Text) × (path : Text) × (get_vendor_adapter device.vendor
      ≡ ok adapter)
    × ((fetch_running_config env device adapter world).0 ≡ ok config)
    × (saved.file_path ≡ some path)
    × (saved.backup_size ≡ some (utf8_size config))
    × ((run_backup env device world).1.files ≡ (path, config) ∷ world.files)
unfolding run_backup attempt_backup store_file build_backup_target write_backup_file conclude_backup
    save_backup add_backup backup_row dispatch_backup_event dispatch_event deliver_event commit
    get_vendor_adapter fetch_running_config open_connection get vendor_adapters text_eq text lower
    strip
run_backup-Written_example = run_backup-Written env device world saved refl refl
