-- ===== src/Workspace/Tests.antt =====
-- Runs of the resolution and of an atomic write on the sample disk.
use gocode.Base.{◌≡◌, refl, some, [], ◌∷◌, ok, err, trim}
use gocode.Paths.{root_dir, normal, components, path_eq, path_starts_with}
use gocode.Workspace.Samples.{
  disk, app, a_file, link, empty_disk, put, Differ, disk-WriteLaws, a_file-TempApart,
}
use gocode.Contract.{outside_workspace}
use gocode.Workspace.{
  canonicalize_best_effort, resolve_through_symlinks, climb, normalize_lexically, push_all,
  resolve_workspace_path, atomic_write_file,
}
use gocode.Workspace.Atomic.{atomic_write_file-Replaced, Replaced}

through_dots : resolve_workspace_path disk app "src/.././a.txt" empty_disk ≡ ok a_file
unfolding resolve_workspace_path trim path_starts_with canonicalize_best_effort path_eq
    resolve_through_symlinks climb normalize_lexically push_all components
through_dots = refl

dots_lead_out :
    resolve_workspace_path disk app "../etc" empty_disk
    ≡ err (outside_workspace (root_dir ∷ normal "etc" ∷ []))
unfolding resolve_workspace_path trim path_starts_with canonicalize_best_effort path_eq
    resolve_through_symlinks climb normalize_lexically push_all components
dots_lead_out = refl

link_leads_out : resolve_workspace_path disk app "link" empty_disk ≡ err (outside_workspace link)
unfolding resolve_workspace_path trim path_starts_with canonicalize_best_effort path_eq
    resolve_through_symlinks climb normalize_lexically push_all components
link_leads_out = refl

atomic_write_example :
    Replaced disk Differ disk-WriteLaws a_file "new"
      (put a_file (some "old") empty_disk)
      (atomic_write_file disk a_file "new" (put a_file (some "old") empty_disk))
atomic_write_example =
    atomic_write_file-Replaced disk Differ disk-WriteLaws a_file "new"
      (put a_file (some "old") empty_disk) a_file-TempApart
