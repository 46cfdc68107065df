-- ===== src/Api/Files/Confined.antt =====
-- What the handlers of files touch.
use mathlib.Core.List.{append_assoc}
use gocontrolpanel.Base.{
  ◌≡◌, refl, sym, ap, ◌∙◌, inl, inr, ◌≢◌, Bool, true, false, not, ◌||◌, Option, none, some, List,
  [], ◌∷◌, ◌++◌, Option-cases, Result, ok, err,
}
use gocontrolpanel.Go.Strings.{Text, codes, text_eq, is_empty, has_prefix}
use gocontrolpanel.Go.Strings.Laws.{text_eq_refl, has_prefix-split}
use gocontrolpanel.Go.Filepath.{base, is_dot, is_dotdot, stem, ext, dir}
use gocontrolpanel.Go.Filepath.Extension.{stem-has_prefix}
use gocontrolpanel.Models.{Uuid, Account}
use gocontrolpanel.Panel.{
  Error, refused, Call, make_dirs, remove_all, read_file, write_file, rename_file, Exec, ◌>>=◌,
  ◌>>◌,
}
use gocontrolpanel.Panel.Calls.{
  Confines, Confines-bind, Confines-then, Confines-pure, Confines-fail, Confines-attempt,
  Confines-if, Confines-request, Confines-query_one,
}
use gocontrolpanel.Store.Accounts.{get_account, get_plan}
use gocontrolpanel.Provision.Input.{to_lower}
use gocontrolpanel.Provision.Sites.{guard}
use gocontrolpanel.Api.Files.{
  Fs, FileInfo, ZipEntry, FileOp, upload, download, read_content, write_content, delete, mkdir,
  extract, rename, safe_path, placed, place, plan_over, account_over, disk_quota_exceeded,
  check_quota, save_at, save_file, save_files, readable, zip_entries, archive_of, open_archive,
  bytes_of, extract_entry, extract_all, stem_or, extract_zip, run_file_op,
}
use gocontrolpanel.Api.Files.Inside.{
  Under, IsRooted, Below-trans, Under-trans, IsClean-IsRooted, safe_path-Under,
}

-- The calls on files: below the folder, and neither the removal nor the move of the folder itself.
-- Making a folder is left free.
pub data Stays (root : Text) : Call → Type 0 where
  reads : {p : Text} → Under root p → Stays root (read_file p)
  writes : {p : Text} → Under root p → Stays root (write_file p)
  removes : {p : Text} → Under root p → p ≢ root → Stays root (remove_all p)
  moves : {p q : Text} → Under root p → p ≢ root → Under root q → Stays root (rename_file p q)
  makes : {p : Text} → Stays root (make_dirs p)

module _ (root : Text) where
  Confines-guard : (b : Bool) (e : Error) → Confines (Stays root) (guard b e)
  Confines-guard true e = record { at = λ w h. h }
  Confines-guard false e = record { at = λ w h. h }

  -- What follows a `guard` may use that its test holds.
  Confines-guarded :
      {A : Type 0} (b : Bool) (e : Error) (m : Exec A)
      → (b ≡ true → Confines (Stays root) m)
      → Confines (Stays root) (guard b e >> m)
  Confines-guarded true e m k = record { at = λ w h. (k refl).at w h }
  Confines-guarded false e m k = record { at = λ w h. h }

  Confines-plan_over :
      (acct : Account) (r : Result Error _) → Confines (Stays root) (plan_over acct r)
  unfolding plan_over
  Confines-plan_over acct (err e) = Confines-pure false
  Confines-plan_over acct (ok plan) = Confines-pure _

  Confines-account_over : (r : Result Error Account) → Confines (Stays root) (account_over r)
  unfolding account_over get_plan
  Confines-account_over (err e) = Confines-pure false
  Confines-account_over (ok acct) =
      Confines-bind _ _ (Confines-attempt _ (Confines-query_one _)) (λ p. Confines-plan_over acct p)

  Confines-check_quota : (id : Uuid) → Confines (Stays root) (check_quota id)
  unfolding check_quota disk_quota_exceeded get_account
  Confines-check_quota id =
      Confines-bind _ _
        (Confines-bind _ _ (Confines-attempt _ (Confines-query_one _))
          (λ a. Confines-account_over a))
        (λ over. Confines-guard (not over) (refused 403))

  Confines-readable : (o : Option FileInfo) → Confines (Stays root) (readable o)
  unfolding readable
  Confines-readable none = Confines-fail _
  Confines-readable (some info) = Confines-if info.is_dir _ _ (Confines-fail _) (Confines-pure info)

  Confines-zip_entries : (o : Option (List ZipEntry)) → Confines (Stays root) (zip_entries o)
  unfolding zip_entries
  Confines-zip_entries none = Confines-fail _
  Confines-zip_entries (some es) = Confines-pure es

  Confines-open_archive :
      (fs : Fs) (full : Text) → Under root full → Confines (Stays root) (open_archive fs full)
  unfolding open_archive
  Confines-open_archive fs full u =
      Confines-bind _ _ (Confines-attempt _ (Confines-request (read_file full) (reads u))) by_read
    where
      by_read :
          (r : Result Error (Unit {0})) → Confines (Stays root) (archive_of r (fs.open_zip full))
      by_read (err e) = unfold archive_of in (Confines-fail _)
      by_read (ok x) = unfold archive_of in (Confines-zip_entries (fs.open_zip full))

  Confines-bytes_of :
      (fs : Fs) (full : Text) → Under root full → Confines (Stays root) (bytes_of fs full)
  unfolding bytes_of
  Confines-bytes_of fs full u =
      Confines-then _ _ (Confines-request (read_file full) (reads u)) (Confines-pure _)

  -- What comes after a path was placed knows where it lies.
  Confines-placed :
      {A : Type 0} (d rel : Text) (status : _) (f : Text → Exec A)
      → IsRooted d
      → ((full : Text) → Under d full → Confines (Stays root) (f full))
      → Confines (Stays root) (placed (safe_path d rel) status >>= f)
  unfolding placed
  Confines-placed d rel status f rooted k = elim (Option-cases (safe_path d rel)) [
    | inl e ↦ rw e record { at = λ w h. h }
    | inr (full, e) ↦ rw e record { at = λ w h. (k full (safe_path-Under d rel rooted e)).at w h }
  ]

  Confines-save_at :
      (folder name : Text)
      → Under root folder
      → Confines (Stays root) (save_at (safe_path folder name))
  unfolding save_at
  Confines-save_at folder name (b, c) = elim (Option-cases (safe_path folder name)) [
    | inl e ↦ rw e (Confines-pure tt)
    | inr (full, e) ↦ rw e (
        Confines-request (write_file full) (
          writes (
            Under-trans root folder full (b, c)
              (safe_path-Under folder name (IsClean-IsRooted c) e))))
  ]

  Confines-save_file :
      (folder filename : Text)
      → Under root folder
      → Confines (Stays root) (save_file folder filename)
  unfolding save_file
  Confines-save_file folder filename u =
      Confines-if (is_empty (base filename) || is_dot (base filename) || is_dotdot (base filename))
        _ _ (Confines-pure tt) (Confines-save_at folder (base filename) u)

  Confines-save_files :
      (folder : Text) (names : List Text)
      → Under root folder
      → Confines (Stays root) (save_files folder names)
  unfolding save_files
  Confines-save_files folder [] u = record { at = λ w h. h }
  Confines-save_files folder (n ∷ ns) u = record {
    at =
        (Confines-then (save_file folder n) (save_files folder ns) (Confines-save_file folder n u)
          (Confines-save_files folder ns u)).at;
  }

  -- An archive is unpacked below a path that begins with the folder.
  module _ (dest : Text) (inside : has_prefix dest (root ++ codes "/") ≡ true)
      (rooted : IsRooted dest) where
    Confines-extract_entry : (e : ZipEntry) → Confines (Stays root) (extract_entry dest e)
    unfolding extract_entry place
    Confines-extract_entry e = Confines-placed dest e.name 400 _ rooted (λ target (b, c).
        Confines-if e.is_dir _ _ (Confines-request (make_dirs target) makes) (
          Confines-then _ _ (Confines-request (make_dirs (dir target)) makes) (
            Confines-request (write_file target)
              (writes (inr (Below-trans root dest target inside b), c)))))

    Confines-extract_all : (es : List ZipEntry) → Confines (Stays root) (extract_all dest es)
    unfolding extract_all
    Confines-extract_all [] = record { at = λ w h. h }
    Confines-extract_all (e ∷ es) = record {
      at =
          (Confines-then (extract_entry dest e) (extract_all dest es) (Confines-extract_entry e)
            (Confines-extract_all es)).at;
    }

not_same : (s t : Text) → not (text_eq s t) ≡ true → s ≢ t
not_same s t h e = clash (rw (← e) (text_eq_refl s))
  where
    clash : text_eq s t ≡ true → ⊥
    clash k = let g = rw k at h in cc

-- The folder of the archive lies in the account's, unless that folder itself ends in `.zip`.
module _ (root : Text) (not_zip : text_eq (to_lower (ext root)) (codes ".zip") ≡ false) where
  dest-has_prefix :
      {full : Text}
      → Under root full
      → text_eq (to_lower (ext full)) (codes ".zip") ≡ true
      → has_prefix (stem_or (stem full) full) (root ++ codes "/") ≡ true
  unfolding stem_or
  dest-has_prefix {full} (inl e, c) h =
      absurd (clash (sym not_zip ∙ ap (λ x. text_eq (to_lower (ext x)) (codes ".zip")) (sym e) ∙ h))
    where
      clash : false ≡ true → ⊥
      clash k = cc
  dest-has_prefix {full} (inr p, c) h = elim (Option-cases (stem full)) [
    | inl e ↦ rw e p
    | inr (d, e) ↦
        let (x, f) = has_prefix-split full (root ++ codes "/") p in
        rw e (stem-has_prefix root x (ap stem (sym (f ∙ append_assoc root (codes "/") x)) ∙ e))
  ]

  prefix-IsRooted :
      (d : Text) → IsRooted root → has_prefix d (root ++ codes "/") ≡ true → IsRooted d
  prefix-IsRooted d (s, e) h =
      let (x, f) = has_prefix-split d (root ++ codes "/") h in
      (((s ++ codes "/") ++ x), f ∙ ap (λ r. (r ++ codes "/") ++ x) e)

  Confines-extract_zip :
      (fs : Fs) (id : Uuid) (path : Text)
      → IsRooted root
      → Confines (Stays root) (extract_zip fs root id path)
  unfolding extract_zip place
  Confines-extract_zip fs id path rooted = Confines-then _ _ (Confines-check_quota root id) (
      Confines-placed root root path 400 _ rooted (λ full u.
        Confines-guarded root (text_eq (to_lower (ext full)) (codes ".zip")) (refused 400) _ (λ zip.
          Confines-bind _ _ (Confines-open_archive root fs full u) (λ es.
            Confines-then _ _ (Confines-request (make_dirs _) makes) (
              Confines-extract_all root _ (dest-has_prefix u zip)
                (prefix-IsRooted _ rooted (dest-has_prefix u zip)) es)))))

  -- Every operation of the explorer stays in the folder.
  pub Confines-run_file_op :
      (fs : Fs) (id : Uuid) (op : FileOp)
      → IsRooted root
      → Confines (Stays root) (run_file_op fs root id op)
  unfolding run_file_op place
  Confines-run_file_op fs id (upload path names) rooted =
      Confines-then _ _ (Confines-check_quota root id) (
        Confines-placed root root path 400 _ rooted (λ folder u.
          Confines-then _ _ (Confines-request (make_dirs folder) makes) (
            Confines-then _ _ (Confines-guard root _ _) (Confines-save_files root folder names u))))
  Confines-run_file_op fs id (download path) rooted =
      Confines-placed root root path 400 _ rooted (λ full u.
        Confines-bind _ _ (Confines-readable root (fs.stat full))
          (λ i. Confines-request _ (reads u)))
  Confines-run_file_op fs id (read_content path) rooted =
      Confines-placed root root path 400 _ rooted (λ full u.
        Confines-bind _ _ (Confines-readable root (fs.stat full)) (λ i.
          Confines-then _ _ (Confines-guard root _ _) (
            Confines-bind _ _ (Confines-bytes_of root fs full u)
              (λ bytes. Confines-guard root _ _))))
  Confines-run_file_op fs id (write_content path) rooted =
      Confines-then _ _ (Confines-check_quota root id) (
        Confines-placed root root path 400 _ rooted (λ full u.
          Confines-then _ _ (Confines-guard root _ _) (
            Confines-then _ _ (Confines-request (make_dirs (dir full)) makes)
              (Confines-request _ (writes u)))))
  Confines-run_file_op fs id (delete path) rooted = Confines-then _ _ (Confines-guard root _ _) (
      Confines-placed root root path 400 _ rooted (λ full u.
        Confines-guarded root (not (text_eq full root)) (refused 400) _
          (λ other. Confines-request _ (removes u (not_same full root other)))))
  Confines-run_file_op fs id (mkdir path) rooted = Confines-then _ _ (Confines-guard root _ _) (
      Confines-placed root root path 400 _ rooted
        (λ full u. Confines-request (make_dirs full) makes))
  Confines-run_file_op fs id (rename from to) rooted =
      Confines-placed root root from 422 _ rooted (λ source u.
        Confines-guarded root (not (text_eq source root)) (refused 400) _ (λ other.
          Confines-placed root root to 422 _ rooted (λ target v.
            Confines-then _ _ (Confines-request (make_dirs (dir target)) makes)
              (Confines-request _ (moves u (not_same source root other) v)))))
  Confines-run_file_op fs id (extract path) rooted = Confines-extract_zip fs id path rooted
