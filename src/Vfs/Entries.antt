-- ===== src/Vfs/Entries.antt =====
-- cache_add_entry and cache_remove_entry of vfs_dcache.c: a file that appears or goes is put into the
-- cached list of its directory or taken out of it.
use mathlib.Core.List.{reverse}
use okfs.Base.{
  ℕ, ◌+◌, Option, none, some, List, [], ◌∷◌, ◌==◌, if◌then◌else◌, CString, str_eq, drop, length,
}
use okfs.Stat.{Stat, Result, ok, err}
use okfs.Namei.{component, behind}
use okfs.Dcache.{
  Inode, Dirent, Cache, name_hash, find_inode, path_remove, find_dentry, update, change_inode,
}
use okfs.Vfs.{Env, Vfs, arglstat}

-- What stands behind the last slash, and what before it; "/" for what is in the root.
unfoldable pub base_name : CString → CString
unfolding component
base_name path = reverse (component (reverse path))

unfoldable pub dir_name : CString → CString
unfolding behind
dir_name path =
    let dir = reverse (drop 1 (behind (reverse path))) in if length dir == 0 then b'/' ∷ [] else dir

-- The first entry of a bucket under a path gets another value.
unfoldable pub replace_path {ℓ} :
    {A : Type ℓ} → CString → A → List (CString × A) → List (CString × A)
replace_path path a [] = []
replace_path path a ((p, b) ∷ rest) =
    if str_eq p path then (p, a) ∷ rest else (p, b) ∷ replace_path path a rest

unfoldable pub set_dentry : (CString → ℕ) → Cache → CString → List Dirent → Cache
unfolding name_hash replace_path
set_dentry full_name_hash c path d =
    let hash = name_hash full_name_hash path in
    record c { dcache = update c.dcache hash (replace_path path d (c.dcache hash)) }

-- The loop of cache_remove_entry; `none`: the name is not in the list, whose end is a null pointer.
unfoldable pub remove_dirent : CString → List Dirent → Option (List Dirent)
remove_dirent name [] = none
remove_dirent name (d ∷ rest) =
    let later = remove_dirent name rest in
    if str_eq d.name name then some rest else elim later [ none ↦ none | some l ↦ some (d ∷ l) ]

-- A new entry makes its directory longer, and changes its times.
abbrev pub lengthen : (name_len now : ℕ) → Inode → Inode
lengthen name_len now i = record i {
  statbuf = record i.statbuf {
    st_size = i.statbuf.st_size + name_len;
    st_atime = now;
    st_mtime = now;
  };
}

abbrev pub lengthen_dir : (CString → ℕ) → (name_len now : ℕ) → CString → Cache → Cache
lengthen_dir full_name_hash name_len now dir c = elim (find_inode full_name_hash c dir) [
  | none ↦ c
  | some p ↦ change_inode (lengthen name_len now) p c
]

module _ (E : Env) where
  open E use {World, os, full_name_hash}

  -- The new file is put in front of the list `d`, if it can be looked up.
  unfoldable pub add_entry_to : ℕ → CString → List Dirent → Result Stat × Vfs E → Vfs E
  unfolding set_dentry change_inode base_name dir_name
  add_entry_to i path d (err e, s) = s
  add_entry_to i path d (ok buf, s) =
      let name = base_name path in
      let entry : Dirent = record {
        name = name;
        name_len = length name;
        ino = buf.st_ino;
        type = 0;
      } in
      let c = set_dentry full_name_hash (s.caches i) (dir_name path) (entry ∷ d) in
      record s {
        caches =
            update s.caches i
              (lengthen_dir full_name_hash (length name) (os.time s.world) (dir_name path) c);
      }

  -- cache_add_entry
  unfoldable pub add_entry : ℕ → CString → Vfs E → Vfs E
  unfolding add_entry_to dir_name
  add_entry i path s = elim (find_dentry full_name_hash (s.caches i) (dir_name path)) [
    | none ↦ s
    | some d ↦ add_entry_to i path d (arglstat E path s)
  ]

  -- cache_remove_entry; `none`: a bad pointer is read.
  unfoldable pub remove_entry : ℕ → CString → Vfs E → Option (Vfs E)
  unfolding set_dentry remove_dirent base_name dir_name
  remove_entry i path s = elim (path_remove full_name_hash (s.caches i) path) [
    | none ↦ none
    | some c ↦ elim (find_dentry full_name_hash c (dir_name path)) [
      | none ↦ some (record s { caches = update s.caches i c })
      | some d ↦ elim (remove_dirent (base_name path) d) [
        | none ↦ none
        | some d' ↦ some (record s {
          caches = update s.caches i (set_dentry full_name_hash c (dir_name path) d');
        })
      ]
    ]
  ]
