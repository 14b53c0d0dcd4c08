-- ===== src/Services/Backups/Truthful.antt =====
-- What a record of a backup says of the disk.
use net_auto_ops.Base.{
  ◌≡◌, refl, ◌∙◌, sym, Bool, some, ◌∷◌, arith, Bool-cases, inl, inr, if◌then◌else◌,
}
use net_auto_ops.Base.Text.{Text}
use net_auto_ops.Config.{or_empty, is_nonempty}
use net_auto_ops.Models.{Device, DeviceBackup, BackupStatus}
use net_auto_ops.Exec.{Exn, Result, ok, raised, outcome, >>=-eq-ok}
use net_auto_ops.External.{Env}
use net_auto_ops.World.{World, commit}
use net_auto_ops.Events.{EventType}
use net_auto_ops.Alerts.Guarantees.{dispatch_event_total, dispatch_event-Unchanged}
use net_auto_ops.Monitoring.Adapters.{VendorAdapter, get_vendor_adapter}
use net_auto_ops.Monitoring.Netmiko.{fetch_running_config}
use net_auto_ops.Backup.Storage.{
  build_backup_target, write_backup_file, utf8_size, backup_directory, backup_path,
}
use net_auto_ops.Services.Backups.{
  BackupDraft, store_file, or_unwritten, with_config, with_platform, attempt_backup,
  conclude_backup, run_backup, save_backup, add_backup, backup_row, dispatch_backup_by,
  dispatch_backup_event,
}

-- A draft of success: the configuration that the device gave is the newest file, at its path and
-- of its size.
pub record Written (env : Env) (device : Device) (d : BackupDraft) (w w' : World) : Type 0 where
  pub adapter : VendorAdapter
  pub supported : get_vendor_adapter device.vendor ≡ ok adapter
  pub config : Text
  pub fetched : (fetch_running_config env device adapter w).0 ≡ ok config
  pub path : Text
  pub file_path : d.file_path ≡ some path
  pub files : w'.files ≡ (path, config) ∷ w.files
  pub size : d.backup_size ≡ some (utf8_size config)

module _ (env : Env) (device : Device) (w : World) where
  store_file-ok :
      (config : Text) (d : BackupDraft)
      → (outcome (store_file env device config) or_unwritten w).0 ≡ ok d
      → d.status ≡ BackupStatus.success
      → (path : Text) × (d.file_path ≡ some path)
        × ((outcome (store_file env device config) or_unwritten w).1.files
            ≡ (path, config) ∷ w.files)
        × (d.backup_size ≡ some (utf8_size config))
  unfolding store_file build_backup_target write_backup_file
  store_file-ok config d h s =
      elim (Bool-cases (env.can_mkdir w.clock (backup_directory device.vendor device.hostname))) [
        | inr m ↦ ground arith
        | inl m ↦
            elim (Bool-cases
              (env.can_write w.clock (backup_path env w.clock device.vendor device.hostname))) [
                | inr c ↦ ground arith
                | inl c ↦ (
                  backup_path env w.clock device.vendor device.hostname,
                  ground arith,
                  ground arith,
                  ground arith,
                )
              ]
      ]

  -- Nothing is written before the file is.
  with_config-ok :
      (r : Result Text) (d : BackupDraft)
      → (with_config env device r w).0 ≡ ok d
      → d.status ≡ BackupStatus.success
      → (config : Text) × (r ≡ ok config)
        × ((outcome (store_file env device config) or_unwritten w).0 ≡ ok d)
        × (with_config env device r w ≡ outcome (store_file env device config) or_unwritten w)
  with_config-ok (ok config) d h s = (config, refl, h, refl)
  with_config-ok (raised e) d h s = ground arith

  fetch-World : (adapter : VendorAdapter) → (fetch_running_config env device adapter w).1 ≡ w
  unfolding fetch_running_config
  fetch-World adapter = refl

  unsupported :
      (e : Exn) (d : BackupDraft)
      → (with_platform env device (raised e) w).0 ≡ ok d
      → d.status ≡ BackupStatus.success
      → ⊥
  unsupported e d h s = ground arith

  with_platform-ok :
      (r : Result VendorAdapter) (d : BackupDraft)
      → get_vendor_adapter device.vendor ≡ r
      → (with_platform env device r w).0 ≡ ok d
      → d.status ≡ BackupStatus.success
      → Written env device d w (with_platform env device r w).1
  with_platform-ok (raised e) d q h s = elim (unsupported e d h s) [ ]
  with_platform-ok (ok adapter) d q h s =
      elim (Bool-cases (is_nonempty (or_empty env.settings.device_ssh_password))) [
        | inr n ↦ ground arith
        | inl n ↦
            let (config, e, g, same) =
              with_config-ok (fetch_running_config env device adapter w).0 d
                (rw (n, if◌then◌else◌, fetch-World adapter) at h) s in
            let (path, p, f, z) = store_file-ok config d g s in
            rw (n, if◌then◌else◌, fetch-World adapter, same)
              (record {
                adapter = adapter;
                supported = q;
                config = config;
                fetched = e;
                path = path;
                file_path = p;
                files = f;
                size = z;
              })
      ]

  attempt_backup-ok :
      (d : BackupDraft)
      → (attempt_backup env device w).0 ≡ ok d
      → d.status ≡ BackupStatus.success
      → Written env device d w (attempt_backup env device w).1
  unfolding attempt_backup
  attempt_backup-ok d h s = with_platform-ok (get_vendor_adapter device.vendor) d refl h s

  save_backup-ok :
      (d : BackupDraft) (w' : World) (backup : DeviceBackup)
      → (save_backup env device d w').0 ≡ ok backup
      → (backup.status ≡ d.status)
        × (backup.file_path ≡ d.file_path)
        × (backup.backup_size ≡ d.backup_size)
        × ((save_backup env device d w').1.files ≡ w'.files)
  unfolding save_backup commit add_backup backup_row
  save_backup-ok d w' backup h = (ground arith, ground arith, ground arith, ground arith)

  dispatch_backup_by_total :
      (backup : DeviceBackup) (s : BackupStatus) (v : World)
      → (b : Bool) × ((dispatch_backup_by env device backup s v).0 ≡ ok b)
        × ((dispatch_backup_by env device backup s v).1.files ≡ v.files)
  dispatch_backup_by_total backup BackupStatus.success v =
      let (b, e) = dispatch_event_total env EventType.backup_success device _ _ v in
      (b, e, (dispatch_event-Unchanged env EventType.backup_success device _ _ v).files)
  dispatch_backup_by_total backup BackupStatus.failed v =
      let (b, e) = dispatch_event_total env EventType.backup_failed device _ _ v in
      (b, e, (dispatch_event-Unchanged env EventType.backup_failed device _ _ v).files)

  conclude_backup-ok :
      (d : BackupDraft) (w' : World) (backup : DeviceBackup)
      → (conclude_backup env device d w').0 ≡ ok backup
      → (backup.status ≡ d.status)
        × (backup.file_path ≡ d.file_path)
        × (backup.backup_size ≡ d.backup_size)
        × ((conclude_backup env device d w').1.files ≡ w'.files)
  unfolding conclude_backup dispatch_backup_event
  conclude_backup-ok d w' backup h =
      let (row, e, f) = >>=-eq-ok (save_backup env device d) _ w' backup h in
      let (b, g, k) = dispatch_backup_by_total row row.status (save_backup env device d w').1 in
      let same : row ≡ backup = cc (rw g at f) in
      let (x, y, z, v) = save_backup-ok d w' row e in rw (e, g, sym same) (x, y, z, k ∙ v)

  -- A backup that is recorded as successful is on the disk: its path names the newest file, whose
  -- content is the configuration that the device gave, and whose size is the recorded one.
  pub run_backup-Written :
      (backup : DeviceBackup)
      → (run_backup env device w).0 ≡ ok backup
      → backup.status ≡ BackupStatus.success
      → (adapter : VendorAdapter) × (config : Text) × (path : Text) × (get_vendor_adapter
            device.vendor
          ≡ ok adapter)
        × ((fetch_running_config env device adapter w).0 ≡ ok config)
        × (backup.file_path ≡ some path)
        × (backup.backup_size ≡ some (utf8_size config))
        × ((run_backup env device w).1.files ≡ (path, config) ∷ w.files)
  unfolding run_backup
  run_backup-Written backup h s =
      let (d, e, f) =
        >>=-eq-ok (attempt_backup env device) (conclude_backup env device) w backup h in
      let (x, y, z, v) = conclude_backup-ok d (attempt_backup env device w).1 backup f in
      let a : Written env device d w (attempt_backup env device w).1 =
        attempt_backup-ok d e (sym x ∙ s) in
      (
        a.adapter,
        a.config,
        a.path,
        a.supported,
        a.fetched,
        y ∙ a.file_path,
        z ∙ a.size,
        rw e (v ∙ a.files),
      )
