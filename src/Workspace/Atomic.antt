-- ===== src/Workspace/Atomic.antt =====
-- `atomic_write_file` of crates/gocode-tools/src/workspace.rs replaces a file wholly or not at all.
use gocode.Base.{
  ◌≡◌, refl, sym, ap, ◌∙◌, Option, none, some, String, if_holds, is_empty, Result, ok, err,
}
use gocode.Paths.{FilePath, file_name, parent, with_file_name}
use gocode.Workspace.{
  FileSystem, Written, after_rename, after_write, temp_name, write_named, in_directory, write_below,
  atomic_write_file,
}

-- What the file system documents, for files that are apart. A rename that fails changes nothing.
pub record WriteLaws {D : Type 0} (fs : FileSystem D) (Apart : FilePath → FilePath → Type 0)
    : Type 0 where
  pub read-create_dir_all :
      (dir q : FilePath) (d : D)
      → parent q ≡ some dir
      → fs.read q (fs.create_dir_all dir d).1 ≡ fs.read q d
  pub read-write_new :
      (p : FilePath) (s : String) (d : D)
      → (fs.write_new p s d).0 ≡ ok tt
      → fs.read p (fs.write_new p s d).1 ≡ ok s
  pub read-write_new_apart :
      (p q : FilePath) (s : String) (d : D)
      → Apart p q
      → fs.read q (fs.write_new p s d).1 ≡ fs.read q d
  pub read-rename :
      (p q : FilePath) (d : D)
      → (fs.rename p q d).0 ≡ ok tt
      → fs.read q (fs.rename p q d).1 ≡ fs.read p d
  pub read-rename_failed :
      (p q r : FilePath) (d : D) (e : String)
      → (fs.rename p q d).0 ≡ err e
      → fs.read r (fs.rename p q d).1 ≡ fs.read r d
  pub read-rename_apart :
      (p q r : FilePath) (d : D)
      → Apart p r
      → Apart q r
      → fs.read r (fs.rename p q d).1 ≡ fs.read r d
  pub read-remove_apart :
      (p q : FilePath) (d : D) → Apart p q → fs.read q (fs.remove_file p d).1 ≡ fs.read q d

module _ {D : Type 0} (fs : FileSystem D) (Apart : FilePath → FilePath → Type 0)
    (laws : WriteLaws fs Apart) where
  -- A file holds the new contents after a success, and what it held before after a failure.
  abbrev pub Replaced : FilePath → String → D → Written fs → Type 0
  Replaced path contents d (ok _, d') = fs.read path d' ≡ ok contents
  Replaced path contents d (err _, d') = fs.read path d' ≡ fs.read path d

  after_rename-Replaced :
      (temp path : FilePath) (contents : String) (d d' : D) (o : Result String (Unit {0}) × D)
      → Apart temp path
      → (fs.rename temp path d') ≡ o
      → fs.read temp d' ≡ ok contents
      → fs.read path d' ≡ fs.read path d
      → Replaced path contents d (after_rename fs temp path o)
  after_rename-Replaced temp path contents d d' (ok tt, d'') apart e held same =
      ap (λ o. fs.read path o.1) (sym e) ∙ laws.read-rename temp path d' (ap (λ o. o.0) e) ∙ held
  after_rename-Replaced temp path contents d d' (err x, d'') apart e held same =
      laws.read-remove_apart temp path d'' apart
      ∙ ap (λ o. fs.read path o.1) (sym e)
      ∙ laws.read-rename_failed temp path path d' x (ap (λ o. o.0) e)
      ∙ same

  after_write-Replaced :
      (temp path : FilePath) (contents : String) (d d' : D) (o : Result String (Unit {0}) × D)
      → Apart temp path
      → (fs.write_new temp contents d') ≡ o
      → fs.read path d' ≡ fs.read path d
      → Replaced path contents d (after_write fs temp path o)
  after_write-Replaced temp path contents d d' (ok tt, d'') apart e same =
      after_rename-Replaced temp path contents d d'' (fs.rename temp path d'') apart refl
        (ap (λ o. fs.read temp o.1) (sym e)
          ∙ laws.read-write_new temp contents d' (ap (λ o. o.0) e))
        (ap (λ o. fs.read path o.1) (sym e)
          ∙ laws.read-write_new_apart temp path contents d' apart
          ∙ same)
  after_write-Replaced temp path contents d d' (err x, d'') apart e same =
      laws.read-remove_apart temp path d'' apart
      ∙ ap (λ o. fs.read path o.1) (sym e)
      ∙ laws.read-write_new_apart temp path contents d' apart
      ∙ same

  -- The temporary file of a path is not that path itself.
  abbrev pub TempApart : FilePath → Type 0
  TempApart path =
      (name : String) (d : D)
      → file_name path ≡ some name
      → Apart (with_file_name path (temp_name fs name d)) path

  write_named-Replaced :
      (path : FilePath) (contents : String) (name : Option String) (d d' : D)
      → TempApart path
      → file_name path ≡ name
      → fs.read path d' ≡ fs.read path d
      → Replaced path contents d (write_named fs path contents name d')
  write_named-Replaced path contents none d d' apart named same = same
  write_named-Replaced path contents (some name) d d' apart named same =
      after_write-Replaced (with_file_name path (temp_name fs name d')) path contents d d' _
        (apart name d' named) refl same

  in_directory-Replaced :
      (dir path : FilePath) (contents : String) (d : D) (o : Result String (Unit {0}) × D)
      → TempApart path
      → fs.read path o.1 ≡ fs.read path d
      → Replaced path contents d (in_directory fs dir path contents o)
  in_directory-Replaced dir path contents d (ok _, d') apart same =
      write_named-Replaced path contents (file_name path) d d' apart refl same
  in_directory-Replaced dir path contents d (err e, d') apart same = same

  write_below-Replaced :
      (path : FilePath) (contents : String) (dir : Option FilePath) (d : D)
      → TempApart path
      → parent path ≡ dir
      → Replaced path contents d (write_below fs path contents dir d)
  write_below-Replaced path contents none d apart below =
      write_named-Replaced path contents (file_name path) d d apart refl refl
  write_below-Replaced path contents (some dir) d apart below =
      if_holds (Replaced path contents d) (is_empty dir)
        (λ _. write_named-Replaced path contents (file_name path) d d apart refl refl)
        (λ _.
          in_directory-Replaced dir path contents d (fs.create_dir_all dir d) apart
            (laws.read-create_dir_all dir path d below))

  -- A file that is written atomically holds the new contents if the write succeeds, and what it held
  -- before if it fails at any step. The file system behaves as documented, and no temporary file has the
  -- path of the file itself.
  pub atomic_write_file-Replaced :
      (path : FilePath) (contents : String) (d : D)
      → TempApart path
      → Replaced path contents d (atomic_write_file fs path contents d)
  unfolding atomic_write_file
  atomic_write_file-Replaced path contents d apart =
      write_below-Replaced path contents (parent path) d apart refl
