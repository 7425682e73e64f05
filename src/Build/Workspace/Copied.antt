-- ===== src/Build/Workspace/Copied.antt =====
-- What a copy of the source leaves in the workspace.
use credential_helper.Base.{
  ◌≡◌, true, sym, ap, subst, ◌∙◌, some, List, [], ◌∷◌, arith, All, inl, inr, Option-cases,
}
use credential_helper.Text.{Text, text_eq_iff, text_eq_refl}
use credential_helper.Text.Path.{join_path}
use credential_helper.Dict.{Dict, lookup, insert, lookup-insert}
use credential_helper.Errors.{ok, err, Result-cases}
use credential_helper.Build.Workspace.{
  Node, folder, symlink, file, Found, broken, found_folder, found_special, found_symlink,
  found_file, WalkItem, Disk, copy_item, copy_fs_with_symlinks,
}

-- What the copy is to have for a file of the walk. A link to a folder that is there already stands
-- for a folder.
pub data IsLike (disk : Disk) : Found → Node → Type 0 where
  folder_like : IsLike disk found_folder folder
  linked_folder :
      {target : Text} → disk.links_folder target ≡ true → IsLike disk found_folder (symlink target)
  link_like : {target : Text} → IsLike disk (found_symlink (ok target)) (symlink target)
  file_like : {content : Text} → IsLike disk (found_file (ok content)) (file content)

abbrev pub item_path : Text → WalkItem → Text
item_path destination item = join_path (destination ∷ item.relative ∷ [])

module _ (disk : Disk) (destination : Text) where
  copy_item-kept :
      (relative : Text) (found : Found) (tree : Dict Node) (path : Text) (node : Node)
      → lookup path tree ≡ some node
      → lookup path
          (copy_item disk destination (record { relative = relative; found = found }) tree).1
        ≡ some node
  unfolding copy_item
  copy_item-kept relative (broken e) tree path node there = there
  copy_item-kept relative found_special tree path node there = there
  copy_item-kept relative (found_symlink (err e)) tree path node there = there
  copy_item-kept relative (found_file (err e)) tree path node there = there
  copy_item-kept relative found_folder tree path node there =
      let new = join_path (destination ∷ relative ∷ []) in
      ground (arith, there, lookup-insert new path folder tree, text_eq_iff new path)
  copy_item-kept relative (found_symlink (ok target)) tree path node there =
      let new = join_path (destination ∷ relative ∷ []) in
      ground (arith, there, lookup-insert new path (symlink target) tree, text_eq_iff new path)
  copy_item-kept relative (found_file (ok content)) tree path node there =
      let new = join_path (destination ∷ relative ∷ []) in
      let made = insert new (file []) tree in
      elim (Option-cases (disk.write_error content)) [
        | inl writes ↦ ground (
          arith,
          there,
          writes,
          lookup-insert new path (file []) tree,
          lookup-insert new path (file content) made,
          text_eq_iff new path,
        )
        | inr ((e, written), fails) ↦ ground (
          arith,
          there,
          fails,
          lookup-insert new path (file []) tree,
          lookup-insert new path (file written) made,
          text_eq_iff new path,
        )
      ]

  copy_item-copied :
      (relative : Text) (found : Found) (tree : Dict Node)
      → (copy_item disk destination (record { relative = relative; found = found }) tree).0 ≡ ok tt
      → (node : Node) × IsLike disk found node
        × (lookup
              (join_path (destination ∷ relative ∷ []))
              (copy_item disk destination (record { relative = relative; found = found }) tree).1
            ≡ some node)
  unfolding copy_item
  copy_item-copied relative (broken e) tree good = absurd (ground arith)
  copy_item-copied relative found_special tree good = absurd (ground arith)
  copy_item-copied relative (found_symlink (err e)) tree good = absurd (ground arith)
  copy_item-copied relative (found_file (err e)) tree good = absurd (ground arith)
  copy_item-copied relative found_folder tree good =
      let new = join_path (destination ∷ relative ∷ []) in
      elim (Option-cases (lookup new tree)) [
        | inl free ↦ (
          folder,
          folder_like,
          ground (arith, free, lookup-insert new new folder tree, text_eq_refl new),
        )
        | inr (folder, there) ↦ (folder, folder_like, ground (arith, there))
        | inr (file content, there) ↦ absurd (ground (arith, there))
        | inr (symlink target, there) ↦
            (symlink target, linked_folder (ground (arith, there)), ground (arith, there))
      ]
  copy_item-copied relative (found_symlink (ok target)) tree good =
      let new = join_path (destination ∷ relative ∷ []) in
      (
        symlink target,
        link_like,
        ground (arith, lookup-insert new new (symlink target) tree, text_eq_refl new),
      )
  copy_item-copied relative (found_file (ok content)) tree good =
      let new = join_path (destination ∷ relative ∷ []) in
      (
        file content,
        file_like,
        ground (
          arith,
          lookup-insert new new (file content) (insert new (file []) tree),
          text_eq_refl new,
        ),
      )

  -- The copy writes over nothing: what is in the workspace stays, if it ends well or not.
  copy_fs_with_symlinks-kept :
      (items : List WalkItem) (tree : Dict Node) (path : Text) (node : Node)
      → lookup path tree ≡ some node
      → lookup path (copy_fs_with_symlinks disk destination items tree).1 ≡ some node
  unfolding copy_fs_with_symlinks
  copy_fs_with_symlinks-kept [] tree path node there = there
  copy_fs_with_symlinks-kept (item ∷ items) tree path node there =
      let kept = copy_item-kept item.relative item.found tree path node there in
      elim (Result-cases (copy_item disk destination item tree).0) [
        | inr (e, fails) ↦ ground (arith, fails, kept)
        | inl (done, copied) ↦ ground (
          arith,
          copied,
          copy_fs_with_symlinks-kept items (copy_item disk destination item tree).1 path node kept,
        )
      ]

  abbrev pub IsCopied : Dict Node → WalkItem → Type 0
  IsCopied tree item =
      (node : Node) × IsLike disk item.found node
      × (lookup (item_path destination item) tree ≡ some node)

  whole_walk :
      (items : List WalkItem) (tree : Dict Node)
      → (copy_fs_with_symlinks disk destination items tree).0 ≡ ok tt
      → All (IsCopied (copy_fs_with_symlinks disk destination items tree).1) items
  whole_walk [] tree good = tt
  whole_walk (item ∷ items) tree good =
      let tree' = (copy_item disk destination item tree).1 in
      elim (Result-cases (copy_item disk destination item tree).0) [
        | inr (e, fails) ↦ absurd (unfold copy_fs_with_symlinks in ground (arith, fails))
        | inl (done, copied) ↦
            let last : (copy_fs_with_symlinks disk destination (item ∷ items) tree)
                ≡ (copy_fs_with_symlinks disk destination items tree') =
              unfold copy_fs_with_symlinks in ground (arith, copied) in
            let (node, is, there) = copy_item-copied item.relative item.found tree copied in
            subst (λ t. All (IsCopied t) (item ∷ items)) (ap (λ r. r.1) (sym last))
              (
                (
                  node,
                  is,
                  copy_fs_with_symlinks-kept items tree' (item_path destination item) node there,
                ),
                whole_walk items tree' (ap (λ r. r.0) (sym last) ∙ good),
              )
      ]

  -- After a copy that ends well, each file of the walk is in the workspace, as a folder, a link or
  -- a file like itself, and what was in the workspace before is there still.
  pub copy_fs_with_symlinks-IsCopied :
      (items : List WalkItem) (tree : Dict Node) (path : Text) (node : Node)
      → lookup path tree ≡ some node
      → (copy_fs_with_symlinks disk destination items tree).0 ≡ ok tt
      → All (IsCopied (copy_fs_with_symlinks disk destination items tree).1) items
        × (lookup path (copy_fs_with_symlinks disk destination items tree).1 ≡ some node)
  copy_fs_with_symlinks-IsCopied items tree path node there good =
      (whole_walk items tree good, copy_fs_with_symlinks-kept items tree path node there)
