-- ===== src/Dcache.antt =====
-- vfs_dcache.c and vfs_dcache.h: the cache of one mounted file system. Inodes live in a store and
-- are named by their place in it, as several paths, the table by inode number and open files point
-- at one inode; nothing ever frees an inode.
pub mod Lookup
pub mod Remove
pub mod Sizes
use okfs.Base.{
  ℕ, zero, suc, ◌+◌, ◌*◌, ◌%◌, ◌^◌, Bool, true, false, ◌&&◌, Option, none, some, List, [], ◌∷◌,
  ◌++◌, ◌==◌, if◌then◌else◌, CString, str_eq, length, get_elem?, set,
}
use okfs.Stat.{Stat}

-- struct okfs_inode
pub record Inode : Type 0 where
  pub statbuf : Stat
  pub symlink : Option CString

-- struct okfs_dirent: an entry of a directory; a list of them is the chain by next_dir
pub record Dirent : Type 0 where
  pub name : CString
  pub name_len : ℕ
  pub ino : ℕ
  pub type : ℕ

-- The tables of struct okfs_superblock. A bucket is the list from its head on.
pub record Cache : Type 0 where
  pub inodes : List Inode
  pub ipath_cache : ℕ → List (CString × ℕ)
  pub inr_cache : ℕ → List ℕ
  pub dcache : ℕ → List (CString × List Dirent)

abbrev pub max_hash : ℕ
max_hash = 13277

-- A table with one bucket changed.
abbrev pub update {ℓ} : {A : Type ℓ} → (ℕ → A) → ℕ → A → ℕ → A
update f k v j = if j == k then v else f j

-- The first entry of a bucket under a path.
unfoldable pub find_path {ℓ} : {A : Type ℓ} → CString → List (CString × A) → Option A
find_path path [] = none
find_path path ((p, a) ∷ rest) = if str_eq p path then some a else find_path path rest

-- dev * ino % MAX_HASH, in 32 bits
pub inr_hash : (dev ino : ℕ) → ℕ
inr_hash dev ino = dev * ino % 2 ^ 32 % max_hash

unfoldable pub has_nr : List Inode → (dev ino p : ℕ) → Bool
has_nr inodes dev ino p = elim (get_elem? inodes p) [
  | none ↦ false
  | some i ↦ (i.statbuf.st_ino == ino) && (i.statbuf.st_dev == dev)
]

pub find_nr : List Inode → (dev ino : ℕ) → List ℕ → Option ℕ
find_nr inodes dev ino [] = none
find_nr inodes dev ino (p ∷ rest) =
    if has_nr inodes dev ino p then some p else find_nr inodes dev ino rest

-- The walk of path_remove behind the first entry, which is the wrong one. The pointer p1 to the entry
-- before is set only from the second round on: `none` is its use before that.
pub unlink_behind : CString → (set_p1 : Bool) → List (CString × ℕ) → Option (List (CString × ℕ))
unlink_behind path set_p1 [] = some []
unlink_behind path set_p1 ((p, i) ∷ rest) =
    let later = unlink_behind path true rest in
    if str_eq p path
    then if set_p1 then some rest else none
    else elim later [ none ↦ none | some l ↦ some ((p, i) ∷ l) ]

-- path_remove on the bucket of the path; `none` is a read through a null or an unset pointer.
pub unlink_path : CString → List (CString × ℕ) → Option (List (CString × ℕ))
unfolding unlink_behind
unlink_path path [] = none
unlink_path path ((p, i) ∷ rest) =
    if str_eq p path
    then some rest
    else elim (unlink_behind path false rest) [ none ↦ none | some l ↦ some ((p, i) ∷ l) ]

-- `full_name_hash` is the kernel's.
module _ (full_name_hash : CString → ℕ) where
  unfoldable pub name_hash : CString → ℕ
  name_hash name = full_name_hash name % max_hash

  -- cache_find_inode
  unfoldable pub find_inode : Cache → CString → Option ℕ
  unfolding name_hash find_path
  find_inode c path = find_path path (c.ipath_cache (name_hash path))

  pub path_insert : Cache → CString → ℕ → Cache
  unfolding name_hash
  path_insert c path inop =
      let hash = name_hash path in
      record c { ipath_cache = update c.ipath_cache hash ((path, inop) ∷ c.ipath_cache hash) }

  unfoldable pub path_remove : Cache → CString → Option Cache
  unfolding name_hash unlink_path
  path_remove c path =
      let hash = name_hash path in
      elim (unlink_path path (c.ipath_cache hash)) [
        | none ↦ none
        | some bucket ↦ some (record c { ipath_cache = update c.ipath_cache hash bucket })
      ]

  pub same_ino_find : Cache → (dev ino : ℕ) → Option ℕ
  unfolding inr_hash find_nr has_nr
  same_ino_find c dev ino = find_nr c.inodes dev ino (c.inr_cache (inr_hash dev ino))

  -- The new inode and the cache that holds it.
  pub creat_inode : Cache → Stat → Option CString → ℕ × Cache
  unfolding inr_hash
  creat_inode c buf symlnk =
      let hash = inr_hash buf.st_dev buf.st_ino in
      let newi = length c.inodes in
      (
        newi,
        record c {
          inodes = c.inodes ++ record { statbuf = buf; symlink = symlnk } ∷ [];
          inr_cache = update c.inr_cache hash (newi ∷ c.inr_cache hash);
        },
      )

  -- cache_add_inode: an inode of the same numbers is shared, its old contents kept.
  unfoldable pub add_inode : Cache → CString → Stat → Option CString → ℕ × Cache
  unfolding same_ino_find creat_inode path_insert
  add_inode c path statbuf symlink = elim (same_ino_find c statbuf.st_dev statbuf.st_ino) [
    | some inop ↦ (inop, path_insert c path inop)
    | none ↦ let (inop, c') = creat_inode c statbuf symlink in (inop, path_insert c' path inop)
  ]

  -- cache_find_dentry
  unfoldable pub find_dentry : Cache → CString → Option (List Dirent)
  unfolding name_hash find_path
  find_dentry c path = find_path path (c.dcache (name_hash path))

  -- cache_find_dirent: a null pointer, for a directory that is not in the cache and for an empty one
  unfoldable pub find_dirent : Cache → CString → List Dirent
  unfolding find_dentry
  find_dirent c path = elim (find_dentry c path) [ none ↦ [] | some d ↦ d ]

  -- cache_add_dirent
  unfoldable pub add_dirent : Cache → CString → List Dirent → Cache
  unfolding name_hash
  add_dirent c path dp =
      let hash = name_hash path in
      record c { dcache = update c.dcache hash ((path, dp) ∷ c.dcache hash) }

-- The inode at a place of the store, changed by `f`.
unfoldable pub change_inode : (Inode → Inode) → ℕ → Cache → Cache
change_inode f p c = elim (get_elem? c.inodes p) [
  | none ↦ c
  | some i ↦ record c { inodes = set c.inodes p (f i) }
]

abbrev pub set_size : (size now : ℕ) → Inode → Inode
set_size size now i = record i {
  statbuf = record i.statbuf { st_size = size; st_atime = now; st_mtime = now };
}

-- change_file_size
unfoldable pub change_file_size : (CString → ℕ) → Cache → CString → (size now : ℕ) → Cache
unfolding find_inode change_inode
change_file_size full_name_hash c path size now = elim (find_inode full_name_hash c path) [
  | none ↦ c
  | some p ↦ change_inode (set_size size now) p c
]
