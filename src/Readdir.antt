-- ===== src/Readdir.antt =====
-- filesystems/vfs_readdir.c: the listing of directories. The buffer that a process gets is the list
-- of its bytes.
pub mod Records
use okfs.Base.{
  ℕ, zero, suc, ◌+◌, ◌-◌, ◌/◌, ◌%◌, ◌^◌, Bool, true, false, Option, none, some, List, [], ◌∷◌, ◌++◌,
  ◌==◌, ltb, if◌then◌else◌, CString, length,
}
use okfs.Base.Int.{ℤ, pos, neg, ◌+ℤ◌, lt_int}
use okfs.Stat.{Result, ok, err, einval, eopnotsupp}
use okfs.Memory.{memset, cstr}
use okfs.Dcache.{Dirent, find_dirent, add_dirent, update}
use okfs.Vfs.{Env, Vfs, call, call_fs, FsOp}
use okfs.Vfs.OpenFiles.{FdVfs, OpenFile, open_file, return, set_file}

-- okfs_add_dirent
abbrev pub okfs_add_dirent : List Dirent → (name : CString) → (ino d_type : ℕ) → List Dirent
okfs_add_dirent head name ino d_type =
    record { name = name; name_len = length name; ino = ino; type = d_type } ∷ head

-- The n low bytes of a number, the lowest first
unfoldable pub bytes_of : (n x : ℕ) → List ℕ
bytes_of zero x = []
bytes_of (suc n) x = x % 256 ∷ bytes_of n (x / 256)

-- strncpy
unfoldable pub strncpy : ℕ → CString → List ℕ
strncpy zero s = []
strncpy (suc n) [] = 0 ∷ strncpy n []
strncpy (suc n) (c ∷ s) = c ∷ strncpy n s

-- MIN(256, name_len + 1)
abbrev pub name_size : Dirent → ℕ
name_size d = if ltb 256 (d.name_len + 1) then 256 else d.name_len + 1

-- struct dirent64 and struct dirent of one entry, at an offset, and their d_reclen
abbrev pub reclen64 : Dirent → ℕ
reclen64 d = name_size d + 19

unfoldable pub dirent64 : Dirent → (d_off : ℕ) → List ℕ
unfolding bytes_of strncpy
dirent64 d d_off =
    bytes_of 8 d.ino
    ++ bytes_of 8 d_off
    ++ bytes_of 2 (reclen64 d)
    ++ bytes_of 1 d.type
    ++ strncpy (name_size d - 1) d.name
    ++ 0 ∷ []

abbrev pub reclen32 : Dirent → ℕ
reclen32 d = name_size d + 10

unfoldable pub dirent32 : Dirent → (d_off : ℕ) → List ℕ
unfolding bytes_of strncpy
dirent32 d d_off =
    bytes_of 4 d.ino
    ++ bytes_of 4 d_off
    ++ bytes_of 2 (reclen32 d)
    ++ strncpy (name_size d - 1) d.name
    ++ 0 ∷ []

-- The first loop: entries in front of `start` are passed over. Offsets count the characters of names.
unfoldable pub skip : (i : ℕ) → (start : ℤ) → List Dirent → ℕ × List Dirent
skip i start [] = (i, [])
skip i start (d ∷ ds) =
    let rest = skip (i + d.name_len) start ds in if lt_int (pos i) start then rest else (i, d ∷ ds)

-- The second loop: entries are copied as long as they fit into `count` bytes.
unfoldable pub fill :
    (reclen : Dirent → ℕ) → (copy : Dirent → ℕ → List ℕ) → (i size count : ℕ) → List Dirent → List ℕ
fill reclen copy i size count [] = []
fill reclen copy i size count (d ∷ ds) =
    let rest = fill reclen copy (i + d.name_len) (size + reclen d) count ds in
    if ltb count (reclen d + size) then [] else copy d i ++ rest

-- What is behind the loops: no bytes at the end of the directory, -EINVAL where no entry fits.
unfoldable pub filled_or : List Dirent → List ℕ → Result (List ℕ)
filled_or [] out = ok []
filled_or (d ∷ ds) out = if length out == 0 then err einval else ok out

-- creat_dirent64 and creat_dirent
unfoldable pub creat_dirent64 : List Dirent → (start : ℤ) → (count : ℕ) → Result (List ℕ)
unfolding skip fill filled_or dirent64
creat_dirent64 okfs_dir start count =
    let from = skip 0 start okfs_dir in
    filled_or from.1 (fill reclen64 dirent64 from.0 0 count from.1)

unfoldable pub creat_dirent : List Dirent → (start : ℤ) → (count : ℕ) → Result (List ℕ)
unfolding skip fill filled_or dirent32
creat_dirent okfs_dir start count =
    let from = skip 0 start okfs_dir in
    filled_or from.1 (fill reclen32 dirent32 from.0 0 count from.1)

-- The operation readdir of a file system, none where it has none. The list is that which it leaves at
-- the pointer it was given.
abbrev pub ReaddirOp : Type 0 → Type 0
ReaddirOp W =
    Option ((path : CString) → (rel_path : Option CString) → (fsfd : ℤ) → FsOp W (List Dirent))

module _ (E : Env) (readdir : ℕ → ReaddirOp E.World) where
  open E use {World, full_name_hash, ptrace}

  -- What okfs_do_readdir does with the answer of the file system
  unfoldable pub learn_dir :
      OpenFile World → Result (List Dirent) × Vfs E → Result (List Dirent) × Vfs E
  learn_dir o (err e, v) = (err e, v)
  learn_dir o (ok dp, v) = (
    ok dp,
    record v {
      caches =
          update v.caches o.number (add_dirent full_name_hash (v.caches o.number) o.file.path dp);
    },
  )

  -- okfs_do_readdir: an empty list in the cache is a null pointer, so the file system is asked again.
  unfoldable pub okfs_do_readdir : OpenFile World → Vfs E → Result (List Dirent) × Vfs E
  unfolding learn_dir call_fs
  okfs_do_readdir o v = elim (readdir o.number) [
    | none ↦ (err eopnotsupp, v)
    | some op ↦ elim (find_dirent full_name_hash (v.caches o.number) o.file.path) [
      | [] ↦ learn_dir o (call_fs E (op o.file.path o.file.rel_path o.fsfd) v)
      | d ∷ ds ↦ (ok (d ∷ ds), v)
    ]
  ]

  -- The bytes go to the process, and the position moves by their number.
  unfoldable pub give_dirents :
      OpenFile World → (arg2 : ℕ) → FdVfs E → Result (List ℕ) → Option (FdVfs E)
  give_dirents o arg2 s (err e) = return E (neg e) s
  give_dirents o arg2 s (ok []) = return E (pos 0) s
  give_dirents o arg2 s (ok (b ∷ bs)) = return E (pos (length (b ∷ bs))) (
      set_file E o.address (record o.file { f_pos = o.file.f_pos +ℤ pos (length (b ∷ bs)) })
        (record s {
          vfs = record s.vfs {
            mem = memset ptrace s.vfs.mem arg2 (cstr (b ∷ bs)) (length (b ∷ bs));
          };
        }))

  unfoldable pub list_dir :
      (creat : List Dirent → ℤ → ℕ → Result (List ℕ))
      → OpenFile World
      → (arg2 count : ℕ) → FdVfs E
      → Result (List Dirent) × Vfs E
      → Option (FdVfs E)
  unfolding give_dirents
  list_dir creat o arg2 count s (err e, v) = return E (neg e) (record s { vfs = v })
  list_dir creat o arg2 count s (ok dp, v) =
      give_dirents o arg2 (record s { vfs = v }) (creat dp o.file.f_pos count)

  -- The handlers, but for the structure that they write
  unfoldable pub getdents :
      (creat : List Dirent → ℤ → ℕ → Result (List ℕ))
      → (fd arg2 count : ℕ) → FdVfs E
      → Option (FdVfs E)
  unfolding open_file list_dir okfs_do_readdir
  getdents creat fd arg2 count s = elim (open_file E s fd) [
    | none ↦ none
    | some o ↦
        if count == 0
        then return E (neg einval) s
        else list_dir creat o arg2 count s (okfs_do_readdir o s.vfs)
  ]

  unfoldable pub okfs_getdents64 : (fd arg2 count : ℕ) → FdVfs E → Option (FdVfs E)
  unfolding getdents creat_dirent64
  okfs_getdents64 = getdents creat_dirent64

  unfoldable pub okfs_getdents : (fd arg2 count : ℕ) → FdVfs E → Option (FdVfs E)
  unfolding getdents creat_dirent
  okfs_getdents = getdents creat_dirent
