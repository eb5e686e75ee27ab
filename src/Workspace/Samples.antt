-- ===== src/Workspace/Samples.antt =====
-- A disk for the tests: a function from paths to contents, with one symbolic link.
use mathlib.Core.Option.{some-injective}
use gocode.Base.{
  is_some, ◌≡◌, refl, subst, true, false, Option, none, some, [], ◌∷◌, String, if◌then◌else◌,
  if_holds, Result, ok, err,
}
use gocode.Paths.{
  FilePath, root_dir, cur_dir, parent_dir, normal, path_eq, path_eq_refl, file_name, with_file_name,
}
use gocode.Workspace.{FileSystem, temp_name}
use gocode.Workspace.Inside.{FileSystemLaws, IsPlain}
use gocode.Patch.Effects.{RemoveLaws}
use gocode.Workspace.Atomic.{WriteLaws, TempApart}

abbrev pub Disk : Type 0
Disk = FilePath → Option String

abbrev pub link : FilePath
link = root_dir ∷ normal "app" ∷ normal "link" ∷ []

abbrev pub without_dots : FilePath → FilePath
without_dots [] = []
without_dots (cur_dir ∷ path) = without_dots path
without_dots (parent_dir ∷ path) = without_dots path
without_dots (root_dir ∷ path) = root_dir ∷ without_dots path
without_dots (normal name ∷ path) = normal name ∷ without_dots path

abbrev pub target : FilePath → FilePath
target path = if path_eq link path then root_dir ∷ normal "etc" ∷ [] else without_dots path

abbrev pub held : Option String → Result String String
held none = err "not found"
held (some s) = ok s

abbrev pub put : FilePath → Option String → Disk → Disk
put path contents d = λ q. if path_eq path q then contents else d q

abbrev pub disk : FileSystem Disk
disk = record {
  exists = λ p d. true;
  is_file = λ p d. is_some (d p);
  canonicalize = λ p d. some (target p);
  read = λ p d. held (d p);
  create_dir_all = λ p d. (ok tt, d);
  write_new = λ p s d. (ok tt, put p (some s) d);
  rename = λ p q d. (ok tt, λ r. if path_eq q r then d p else put p none d r);
  remove_file = λ p d. (ok tt, put p none d);
  unique_suffix = λ d. "7-1";
}

without_dots-IsPlain : (path : FilePath) → IsPlain (without_dots path)
without_dots-IsPlain [] = tt
without_dots-IsPlain (cur_dir ∷ path) = without_dots-IsPlain path
without_dots-IsPlain (parent_dir ∷ path) = without_dots-IsPlain path
without_dots-IsPlain (root_dir ∷ path) = (refl, without_dots-IsPlain path)
without_dots-IsPlain (normal name ∷ path) = (refl, without_dots-IsPlain path)

target-IsPlain : (path : FilePath) → IsPlain (target path)
target-IsPlain path =
    if_holds IsPlain (path_eq link path) (λ _. (refl, (refl, tt))) (λ _. without_dots-IsPlain path)

pub disk-FileSystemLaws : FileSystemLaws disk
disk-FileSystemLaws = record {
  canonical_plain = λ p q d h. subst IsPlain (some-injective (target p) q h) (target-IsPlain p);
  exists_canonical = λ p d h. (target p, refl);
  root_exists = λ p d h. refl;
}

abbrev pub Differ : FilePath → FilePath → Type 0
Differ p q = path_eq p q ≡ false

pub disk-WriteLaws : WriteLaws disk Differ
disk-WriteLaws = record {
  read-create_dir_all = λ dir q d e. refl;
  read-write_new = λ p s d h. rw (path_eq_refl p) refl;
  read-write_new_apart = λ p q s d h. rw h refl;
  read-rename = λ p q d h. rw (path_eq_refl q) refl;
  read-rename_failed = λ p q r d e h. cc h;
  read-rename_apart = λ p q r d h k. rw k (rw h refl);
  read-remove_apart = λ p q d h. rw h refl;
}

abbrev pub empty_disk : Disk
empty_disk = λ q. none

abbrev pub app : FilePath
app = root_dir ∷ normal "app" ∷ []

abbrev pub a_file : FilePath
a_file = root_dir ∷ normal "app" ∷ normal "a.txt" ∷ []

pub disk-RemoveLaws : RemoveLaws disk
disk-RemoveLaws = record {
  is_file-remove = λ p d h. rw (path_eq_refl p) refl;
  read-remove_failed = λ p d e h. cc h;
}

pub a_file-TempApart : TempApart disk Differ disk-WriteLaws a_file
unfolding with_file_name path_eq file_name
a_file-TempApart name d h =
    subst (λ n. Differ (with_file_name a_file (temp_name disk n d)) a_file)
      (some-injective "a.txt" name h) refl
