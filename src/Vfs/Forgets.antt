-- ===== src/Vfs/Forgets.antt =====
-- A file that is unlinked or renamed is no longer found under its old name.
use mathlib.Core.Path.{subst}
use okfs.Base.{
  ℕ, ◌≡◌, refl, ◌∙◌, false, Option, none, some, List, ◌==◌, ==-refl, if◌then◌else◌, CString, str_eq,
}
use okfs.Dcache.{Dirent, Cache, name_hash, find_inode, path_remove, find_dentry, update}
use okfs.Dcache.Remove.{Distinct, find_inode-path_remove}
use okfs.Vfs.{Env, Vfs}
use okfs.Vfs.Entries.{set_dentry, dir_name, base_name, remove_dirent, remove_entry}

module _ (E : Env) where
  open E use {full_name_hash}

  -- The paths of `c` without one.
  abbrev Without : Cache → CString → Cache → Type 0
  Without c path c' =
      (q : CString)
      → find_inode full_name_hash c' q
        ≡ (if str_eq path q then none else find_inode full_name_hash c q)

  set_dentry-find_inode :
      (c : Cache) (path q : CString) (d : List Dirent)
      → find_inode full_name_hash (set_dentry full_name_hash c path d) q
        ≡ find_inode full_name_hash c q
  unfolding set_dentry find_inode
  set_dentry-find_inode c path q d = refl

  abbrev WithoutEnd : ℕ → CString → Vfs E → Option (Vfs E) → Type 0
  WithoutEnd i path s none = Unit {0}
  WithoutEnd i path s (some s') =
      Without (s.caches i) path (s'.caches i)
      × ((j : ℕ) → (j == i) ≡ false → s'.caches j ≡ s.caches j)

  updated :
      (i : ℕ) (path : CString) (s : Vfs E) (c' : Cache)
      → Without (s.caches i) path c'
      → WithoutEnd i path s (some (record s { caches = update s.caches i c' }))
  updated i path s c' w = (rw (==-refl i) w, λ j other. rw other refl)

  remove_entry-End :
      (i : ℕ) (path : CString) (s : Vfs E)
      → Distinct ((s.caches i).ipath_cache (name_hash full_name_hash path))
      → WithoutEnd i path s (remove_entry E i path s)
  unfolding remove_entry
  remove_entry-End i path s d = removed (path_remove full_name_hash (s.caches i) path) refl
    where
      of_list :
          (c : Cache)
          → Without (s.caches i) path c
          → (o : Option (List Dirent))
          → WithoutEnd i path s (elim o [
            | none ↦ none
            | some d' ↦ some (record s {
              caches = update s.caches i (set_dentry full_name_hash c (dir_name path) d');
            })
          ])
      of_list c w none = tt
      of_list c w (some d') =
          updated i path s _ (λ q. set_dentry-find_inode c (dir_name path) q d' ∙ w q)

      of_dentry :
          (c : Cache)
          → Without (s.caches i) path c
          → (o : Option (List Dirent))
          → WithoutEnd i path s (elim o [
            | none ↦ some (record s { caches = update s.caches i c })
            | some d ↦ elim (remove_dirent (base_name path) d) [
              | none ↦ none
              | some d' ↦ some (record s {
                caches = update s.caches i (set_dentry full_name_hash c (dir_name path) d');
              })
            ]
          ])
      of_dentry c w none = updated i path s c w
      of_dentry c w (some l) = of_list c w (remove_dirent (base_name path) l)

      removed :
          (o : Option Cache)
          → path_remove full_name_hash (s.caches i) path ≡ o
          → WithoutEnd i path s (elim o [
            | none ↦ none
            | some c ↦ elim (find_dentry full_name_hash c (dir_name path)) [
              | none ↦ some (record s { caches = update s.caches i c })
              | some d ↦ elim (remove_dirent (base_name path) d) [
                | none ↦ none
                | some d' ↦ some (record s {
                  caches = update s.caches i (set_dentry full_name_hash c (dir_name path) d');
                })
              ]
            ]
          ])
      removed none e = tt
      removed (some c) e =
          of_dentry c (λ q. find_inode-path_remove full_name_hash (s.caches i) c path q d e)
            (find_dentry full_name_hash c (dir_name path))

  -- Where no path is twice in the bucket, cache_remove_entry that comes to its end makes the file
  -- system's cache forget the path, so that the next okfs_dolstat asks the file system; every other
  -- path keeps its inode, and the caches of the other file systems are as they were.
  pub remove_entry-forgets :
      (i : ℕ) (path : CString) (s s' : Vfs E)
      → Distinct ((s.caches i).ipath_cache (name_hash full_name_hash path))
      → remove_entry E i path s ≡ some s'
      → ((q : CString)
          → find_inode full_name_hash (s'.caches i) q
            ≡ (if str_eq path q then none else find_inode full_name_hash (s.caches i) q))
        × ((j : ℕ) → (j == i) ≡ false → s'.caches j ≡ s.caches j)
  remove_entry-forgets i path s s' d e = subst (WithoutEnd i path s) e (remove_entry-End i path s d)
