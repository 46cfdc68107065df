-- ===== src/Api/Files.antt =====
-- internal/api/handlers_files.go: the file explorer of an account, from requests that are decoded.
-- What the disk holds is the parameter `Fs`; what is read, written, moved or removed goes to the
-- calls of the world. A reply's body is not modelled, the listing of a folder neither.
pub mod Inside
pub mod Confined
pub mod Accounts
use gocontrolpanel.Base.{
  ℕ, ◌*◌, ◌+◌, Bool, true, false, not, ◌&&◌, ◌||◌, Option, none, some, List, [], ◌∷◌, ◌++◌, Result,
  ok, err, ltb, leb, ◌==◌, if◌then◌else◌,
}
use gocontrolpanel.Go.Strings.{Text, codes, text_eq, is_empty, has_prefix, trim_prefix, trim_space}
use gocontrolpanel.Go.Filepath.{is_dot, is_dotdot, clean, join_path, base, dir, stem, ext}
use gocontrolpanel.Models.{Uuid, Account, Plan}
use gocontrolpanel.Panel.{
  Error, refused, make_dirs, remove_all, read_file, write_file, rename_file, World, Exec, ◌>>=◌,
  ◌>>◌, pure, fail, attempt, request,
}
use gocontrolpanel.Store.Accounts.{get_account, get_plan}
use gocontrolpanel.Provision.Edge.{Settings}
use gocontrolpanel.Provision.Input.{to_lower}
use gocontrolpanel.Provision.Sites.{guard}
use gocontrolpanel.Api.Access.{Identity, authorize_account}

pub record FileInfo : Type 0 where
  pub is_dir : Bool
  pub size : ℕ

pub record ZipEntry : Type 0 where
  pub name : Text
  pub is_dir : Bool

-- `zip.OpenReader` gives the entries of an archive that it can read.
pub record Fs : Type 0 where
  pub stat : Text → Option FileInfo
  pub read_bytes : Text → List ℕ
  pub open_zip : Text → Option (List ZipEntry)

anchored : Text → Text → Option Text
unfolding has_prefix text_eq
anchored root full =
    if not (text_eq full root) && not (has_prefix full (root ++ codes "/")) then none else some full

-- The path below `root`; `none` is the error.
unfoldable pub safe_path : Text → Text → Option Text
unfolding anchored clean join_path trim_prefix
safe_path root rel = anchored root (join_path root (clean (b'/' ∷ trim_prefix rel (codes "/"))))

placed : Option Text → ℕ → Exec Text
placed none status = fail (refused status)
placed (some full) status = pure full

unfoldable pub place : Text → Text → Exec Text
unfolding placed safe_path
place root rel = placed (safe_path root rel) 400

-- `plan.DiskQuotaMB > 0 && acct.DiskUsedMB >= plan.DiskQuotaMB`, of the last measurement.
abbrev pub is_over : Account → Plan → Bool
is_over acct plan = ltb 0 plan.disk_quota_mb && leb plan.disk_quota_mb acct.disk_used_mb

plan_over : Account → Result Error Plan → Exec Bool
plan_over acct (err e) = pure false
plan_over acct (ok plan) = pure (is_over acct plan)

account_over : Result Error Account → Exec Bool
unfolding get_plan plan_over
account_over (err e) = pure false
account_over (ok acct) = do plan ← attempt (get_plan acct.plan_id); plan_over acct plan

unfoldable pub disk_quota_exceeded : Uuid → Exec Bool
unfolding get_account account_over
disk_quota_exceeded id = do acct ← attempt (get_account id); account_over acct

check_quota : Uuid → Exec (Unit {0})
unfolding disk_quota_exceeded
check_quota id = do over ← disk_quota_exceeded id; guard (not over) (refused 403)

-- One uploaded file: a name that is no file's is passed over.
save_at : Option Text → Exec (Unit {0})
save_at none = pure tt
save_at (some dest) = request (write_file dest)

save_file : Text → Text → Exec (Unit {0})
unfolding base save_at safe_path
save_file folder filename =
    let name = base filename in
    if is_empty name || is_dot name || is_dotdot name
    then pure tt
    else save_at (safe_path folder name)

unfoldable pub save_files : Text → List Text → Exec (Unit {0})
unfolding save_file
save_files folder [] w = (ok tt, w)
save_files folder (f ∷ fs) w = (do save_file folder f; save_files folder fs) w

-- 64 bits do not matter here: a size is compared with a constant.
abbrev max_editable_bytes : ℕ
max_editable_bytes = 4 * 1024 * 1024

no_zero : ℕ → List ℕ → Bool
no_zero n [] = true
no_zero n (b ∷ bs) =
    let rest = no_zero (n + 1) bs in if leb 8000 n then true else not (b == 0) && rest

unfoldable pub looks_binary : List ℕ → Bool
unfolding no_zero
looks_binary bytes = not (no_zero 0 bytes)

readable : Option FileInfo → Exec FileInfo
readable none = fail (refused 404)
readable (some info) = if info.is_dir then fail (refused 404) else pure info

is_folder : Option FileInfo → Bool
is_folder none = false
is_folder (some info) = info.is_dir

zip_entries : Option (List ZipEntry) → Exec (List ZipEntry)
zip_entries none = fail (refused 400)
zip_entries (some entries) = pure entries

extract_entry : Text → ZipEntry → Exec (Unit {0})
unfolding place dir
extract_entry dest e = do
  target ← place dest e.name
  if e.is_dir
      then request (make_dirs target)
      else (do request (make_dirs (dir target)); request (write_file target))

archive_of : Result Error (Unit {0}) → Option (List ZipEntry) → Exec (List ZipEntry)
unfolding zip_entries
archive_of (err e) o = fail (refused 400)
archive_of (ok u) o = zip_entries o

-- The bytes of a file, which is read.
bytes_of : Fs → Text → Exec (List ℕ)
unfolding request
bytes_of fs full = do request (read_file full); pure (fs.read_bytes full)

-- `zip.OpenReader`: the file is read.
open_archive : Fs → Text → Exec (List ZipEntry)
unfolding archive_of request
open_archive fs full = do r ← attempt (request (read_file full)); archive_of r (fs.open_zip full)

unfoldable pub extract_all : Text → List ZipEntry → Exec (Unit {0})
unfolding extract_entry
extract_all dest [] w = (ok tt, w)
extract_all dest (e ∷ es) w = (do extract_entry dest e; extract_all dest es) w

-- strings.TrimSuffix(full, filepath.Ext(full))
stem_or : Option Text → Text → Text
stem_or none full = full
stem_or (some s) full = s

unfoldable pub extract_zip : Fs → Text → Uuid → Text → Exec (Unit {0})
unfolding place check_quota open_archive stem stem_or ext to_lower
extract_zip fs root account_id path = do
  check_quota account_id
  full ← place root path
  guard (text_eq (to_lower (ext full)) (codes ".zip")) (refused 400)
  entries ← open_archive fs full
  request (make_dirs (stem_or (stem full) full))
  extract_all (stem_or (stem full) full) entries

no_names : List Text → Bool
no_names [] = true
no_names (n ∷ ns) = false

pub data FileOp : Type 0 where
  upload : (path : Text) (names : List Text) → FileOp
  download read_content write_content delete mkdir extract : (path : Text) → FileOp
  rename : (from to : Text) → FileOp

unfoldable pub run_file_op : Fs → Text → Uuid → FileOp → Exec (Unit {0})
unfolding place placed safe_path check_quota save_files bytes_of looks_binary readable is_folder
    no_names extract_zip dir trim_space text_eq
run_file_op fs root account_id (upload path names) = do
  check_quota account_id
  folder ← place root path
  request (make_dirs folder)
  guard (not (no_names names)) (refused 400)
  save_files folder names
run_file_op fs root account_id (download path) = do
  full ← place root path
  info ← readable (fs.stat full)
  request (read_file full)
run_file_op fs root account_id (read_content path) = do
  full ← place root path
  info ← readable (fs.stat full)
  guard (leb info.size max_editable_bytes) (refused 413)
  bytes ← bytes_of fs full
  guard (not (looks_binary bytes)) (refused 415)
run_file_op fs root account_id (write_content path) = do
  check_quota account_id
  full ← place root path
  guard (not (is_folder (fs.stat full))) (refused 400)
  request (make_dirs (dir full))
  request (write_file full)
run_file_op fs root account_id (delete path) = do
  guard (not (is_empty (trim_space path))) (refused 400)
  full ← place root path
  guard (not (text_eq full root)) (refused 400)
  request (remove_all full)
run_file_op fs root account_id (mkdir path) = do
  guard (not (is_empty (trim_space path))) (refused 422)
  full ← place root path
  request (make_dirs full)
run_file_op fs root account_id (rename from to) = do
  source ← placed (safe_path root from) 422
  guard (not (text_eq source root)) (refused 400)
  target ← placed (safe_path root to) 422
  request (make_dirs (dir target))
  request (rename_file source target)
run_file_op fs root account_id (extract path) = extract_zip fs root account_id path

-- `accountFilesRoot` and the operation behind it.
unfoldable pub handle_files : Settings → Fs → Identity → Uuid → FileOp → Exec (Unit {0})
unfolding authorize_account join_path run_file_op
handle_files cfg fs id account_id op = do
  acct ← authorize_account id account_id
  run_file_op fs (join_path cfg.sites_root acct.system_user) acct.id op
