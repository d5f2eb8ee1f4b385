-- ===== src/Tests/Caches.antt =====
-- A cache in which all paths fall into one bucket.
use okfs.Base.{
  ◌++◌, List, ℕ, ◌≡◌, ◌≢◌, refl, ◌↔◌, true, none, some, [], ◌∷◌, if◌then◌else◌, CString, str_eq,
  get_elem?,
}
use okfs.Dcache.{
  Inode, Dirent, Cache, name_hash, find_path, has_nr, find_inode, path_remove, update, add_inode,
  find_dirent, add_dirent, change_file_size,
}
use okfs.Dcache.Lookup.{find_inode-add_inode, add_inode-links, find_dirent-add_dirent}
use okfs.Dcache.Remove.{Distinct, Unreadable, path_remove-none, find_inode-path_remove}
use okfs.Dcache.Sizes.{change_file_size-links}
use okfs.Tests.Paths.{stat_of_mode}

abbrev hash : CString → ℕ
hash path = 0

abbrev a : CString
a = b'/' ∷ b'a' ∷ []

abbrev b : CString
b = b'/' ∷ b'b' ∷ []

abbrev c : CString
c = b'/' ∷ b'c' ∷ []

abbrev file : Inode
file = record { statbuf = stat_of_mode 32768; symlink = none }

-- The two names of one file
abbrev pub two_names : Cache
two_names = record {
  inodes = file ∷ [];
  ipath_cache = λ h. (a, 0) ∷ (b, 0) ∷ [];
  inr_cache = λ h. 0 ∷ [];
  dcache = λ h. [];
}

-- The first inode of a file system
abbrev nothing : Cache
nothing = record { inodes = []; ipath_cache = λ h. []; inr_cache = λ h. []; dcache = λ h. [] }

find_inode-add_inode_example :
    let (inop, c') = add_inode hash nothing c (stat_of_mode 16384) none in
    (find_inode hash c' b ≡ (if str_eq c b then some inop else find_inode hash nothing b))
    × (has_nr c'.inodes (stat_of_mode 16384).st_dev (stat_of_mode 16384).st_ino inop ≡ true)
    × (added : List Inode) × (c'.inodes ≡ nothing.inodes ++ added)
    × ((i : ℕ) (inode : Inode)
        → get_elem? added i ≡ some inode
        → inode.statbuf ≡ stat_of_mode 16384)
find_inode-add_inode_example = find_inode-add_inode hash nothing c b (stat_of_mode 16384) none

add_inode-links_example :
    let (inop, c') = add_inode hash two_names c (stat_of_mode 16384) none in
    let (inop', c'') = add_inode hash c' a (stat_of_mode 32768) (some b) in
    (inop' ≡ inop) × (c''.inodes ≡ c'.inodes)
add_inode-links_example =
    add_inode-links hash two_names c a (stat_of_mode 16384) (stat_of_mode 32768) none (some b) refl
      refl

abbrev entry : Dirent
entry = record { name = b'a' ∷ []; name_len = 1; ino = 2; type = 0 }

find_dirent-add_dirent_example :
    find_dirent hash (add_dirent hash two_names c (entry ∷ [])) b
    ≡ (if str_eq c b then entry ∷ [] else find_dirent hash two_names b)
find_dirent-add_dirent_example = find_dirent-add_dirent hash two_names c b (entry ∷ [])

path_remove-none_example :
    path_remove hash two_names b ≡ none ↔ Unreadable b (two_names.ipath_cache (name_hash hash b))
path_remove-none_example = path_remove-none hash two_names b

-- What is left without the first name
abbrev without_a : Cache
without_a = record two_names { ipath_cache = update two_names.ipath_cache 0 ((b, 0) ∷ []) }

path_remove-a : path_remove hash two_names a ≡ some without_a
unfolding path_remove name_hash
path_remove-a = refl

Distinct-names : Distinct (two_names.ipath_cache (name_hash hash a))
unfolding find_path
Distinct-names = (refl, (refl, tt))

find_inode-path_remove_example :
    find_inode hash without_a b ≡ (if str_eq a b then none else find_inode hash two_names b)
find_inode-path_remove_example =
    find_inode-path_remove hash two_names without_a a b Distinct-names path_remove-a

found_a : find_inode hash two_names a ≡ some 0
unfolding find_inode
found_a = refl

found_b : find_inode hash two_names b ≡ some 0
unfolding find_inode
found_b = refl

-- truncate(a, 5) at time 9, seen under the other name
change_file_size-links_example :
    let c' = change_file_size hash two_names a 5 9 in
    (find_inode hash c' b ≡ some 0)
    × (◌≡◌ {A = ℕ} 0 0
        → get_elem? c'.inodes 0
          ≡ some (record file {
            statbuf = record file.statbuf { st_size = 5; st_atime = 9; st_mtime = 9 };
          }))
    × (◌≢◌ {A = ℕ} 0 0 → get_elem? c'.inodes 0 ≡ get_elem? two_names.inodes 0)
change_file_size-links_example =
    change_file_size-links hash two_names a b 5 9 0 0 file found_a refl found_b
