-- ===== src/Backup/Storage.antt =====
-- app/backup/storage.py: where a backup is written. A path is relative to the project's root.
pub mod Slugs
use net_auto_ops.Base.{
  ℕ, ◌+◌, Bool, true, false, ◌&&◌, Option, none, some, List, [], ◌∷◌, ◌++◌, ◌==◌, leb,
  if◌then◌else◌,
}
use net_auto_ops.Base.Text.{Text, text, text_eq, strip, strip_of, lower}
use net_auto_ops.Exec.{os_error, ok, raised}
use net_auto_ops.External.{Env}
use net_auto_ops.World.{World, Action}

-- `[a-z0-9._-]`
unfoldable pub is_slug_char : ℕ → Bool
is_slug_char c =
    if leb b'a' c && leb c b'z'
    then true
    else if leb b'0' c && leb c b'9'
    then true
    else if c == b'.'
    then true
    else if c == b'_'
    then true
    else c == b'-'

-- `re.sub(r"[^a-z0-9._-]+", "_", value)`; the flag says that a run of other characters has begun.
unfoldable pub replace_runs : Bool → Text → Text
replace_runs in_run [] = []
replace_runs in_run (c ∷ s) = elim (is_slug_char c) [
  | true ↦ c ∷ replace_runs false s
  | false ↦ elim in_run [ true ↦ replace_runs true s | false ↦ b'_' ∷ replace_runs true s ]
]

abbrev pub is_underscore : ℕ → Bool
is_underscore c = c == b'_'

abbrev pub or_unknown : Text → Text
or_unknown [] = text "unknown"
or_unknown (c ∷ s) = c ∷ s

unfoldable pub slugify : Text → Text
slugify value = or_unknown (strip_of is_underscore (replace_runs false (lower (strip value))))

pub record BackupTarget : Type 0 where
  pub relative_path : Text
  pub filename : Text

-- `directory / part`: pathlib drops a component `.`, and keeps `..`.
abbrev below : Text → Text → Text
below directory part = if text_eq part (text ".") then directory else directory ++ text "/" ++ part

unfoldable pub backup_directory : Text → Text → Text
backup_directory vendor hostname =
    below (below (text "backups") (slugify vendor)) (slugify hostname)

unfoldable pub backup_filename : Env → ℕ → Text → Text
backup_filename env now hostname = slugify hostname ++ text "_" ++ env.strftime now ++ text ".cfg"

unfoldable pub backup_path : Env → ℕ → Text → Text → Text
backup_path env now vendor hostname =
    below (backup_directory vendor hostname) (backup_filename env now hostname)

unfoldable pub build_backup_target : Env → Text → Text → Action BackupTarget
build_backup_target env vendor hostname w =
    if env.can_mkdir w.clock (backup_directory vendor hostname)
    then (
      ok (record {
        relative_path = backup_path env w.clock vendor hostname;
        filename = backup_filename env w.clock hostname;
      }),
      w,
    )
    else (raised os_error, w)

-- The number of bytes of a text in UTF-8.
unfoldable pub utf8_size : Text → ℕ
utf8_size [] = 0
utf8_size (c ∷ s) =
    let rest = utf8_size s in
    if leb c 0x7f
    then 1 + rest
    else if leb c 0x7ff
    then 2 + rest
    else if leb c 0xffff
    then 3 + rest
    else 4 + rest

unfoldable pub write_backup_file : Env → Text → Text → Action ℕ
write_backup_file env path content w =
    if env.can_write w.clock path
    then (ok (utf8_size content), record w { files = (path, content) ∷ w.files })
    else (raised os_error, w)
