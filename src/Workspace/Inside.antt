-- ===== src/Workspace/Inside.antt =====
-- A path that `resolve_workspace_path` of crates/gocode-tools/src/workspace.rs gives lies inside the
-- project.
use gocode.Base.{
  ◌≡◌, Bool, true, false, some, List, [], ◌∷◌, ◌++◌, String, reverse, All, Result, ok, err,
}
use gocode.Paths.{
  FilePath, Component, root_dir, cur_dir, parent_dir, normal, components, path_join,
  path_starts_with,
}
use gocode.Contract.{ToolError}
use gocode.Workspace.{FileSystem, normalize_lexically, canonicalize_best_effort}

-- A component that stands for a directory itself or the one above.
abbrev pub is_dot : Component → Bool
is_dot cur_dir = true
is_dot parent_dir = true
is_dot _ = false

abbrev pub IsPlain : FilePath → Type 0
IsPlain path = All (λ c. is_dot c ≡ false) path

-- A path, written from its end, that climbs from the root, and one that also descends.
abbrev pub IsRoot : List Component → Type 0
IsRoot (root_dir ∷ []) = Unit {0}
IsRoot (parent_dir ∷ path) = IsRoot path
IsRoot _ = ⊥

abbrev pub IsNormalized : List Component → Type 0
IsNormalized (normal _ ∷ path) = IsNormalized path
IsNormalized (root_dir ∷ []) = Unit {0}
IsNormalized (parent_dir ∷ path) = IsRoot path
IsNormalized _ = ⊥

-- What the file system documents: a canonical path has no dots, a path that exists has a canonical one,
-- and the root exists, also as the directory above itself.
pub record FileSystemLaws {D : Type 0} (fs : FileSystem D) : Type 0 where
  pub canonical_plain : (p q : FilePath) (d : D) → fs.canonicalize p d ≡ some q → IsPlain q
  pub exists_canonical :
      (p : FilePath) (d : D)
      → fs.exists p d ≡ true
      → (q : FilePath) × (fs.canonicalize p d ≡ some q)
  pub root_exists :
      (path : List Component) (d : D) → IsRoot path → fs.exists (reverse path) d ≡ true

module _ {D : Type 0} (fs : FileSystem D) (laws : FileSystemLaws fs) where
  -- None of the paths below an ancestor, which is written from its end, exists down to a path.
  abbrev pub NoneExists : D → List Component → FilePath → Type 0
  NoneExists d existing [] = Unit
  NoneExists d existing (c ∷ trailing) =
      (fs.exists (reverse (c ∷ existing)) d ≡ false) × NoneExists d (c ∷ existing) trailing

  -- Where a path leads: the deepest of its ancestors that exists, through all links, and what is to be
  -- made below that.
  pub record LeadsTo (d : D) (whole path : FilePath) : Type 0 where
    pub existing : List Component
    pub trailing : FilePath
    pub canonical : FilePath
    pub whole_is : whole ≡ reverse existing ++ trailing
    pub there : fs.exists (reverse existing) d ≡ true
    pub canonical_is : fs.canonicalize (reverse existing) d ≡ some canonical
    pub path_is : path ≡ canonical ++ trailing
    pub deepest : NoneExists d existing trailing

  abbrev pub InsideIfOk : FilePath → String → D → Result ToolError FilePath → Type 0
  InsideIfOk project_root raw d (ok path) =
      (path_starts_with path (canonicalize_best_effort fs project_root d) ≡ true)
      × IsPlain path
      × LeadsTo d (normalize_lexically (path_join project_root (components raw))) path
  InsideIfOk project_root raw d (err _) = Unit {0}
