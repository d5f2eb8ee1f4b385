-- ===== src/Vfs.antt =====
-- The file system switch: the mounted file systems and their operations (virtualfs.h), the state that
-- the calls of a traced process work on, and the functions that find out which file system is
-- responsible for a path (okfs_dolstat and okfs_arglstat of vfs_stat.c, okfs_argreadlink, proc_path1,
-- proc_path2, clean_path1 and clean_path2 of vfs_path_calls.c).
pub mod Entries
pub mod Calls
pub mod Pairs
pub mod Stats
pub mod Table
pub mod Keeps
pub mod Bodies
pub mod Ready
pub mod Invariant
pub mod Caching
pub mod Forgets
pub mod SameFs
pub mod Total
pub mod Ends
pub mod OpenFiles
pub mod FileCalls
pub mod Reading
pub mod Opening
pub mod Opened
pub mod OpenFlags
pub mod Mounts
use okfs.Base.{
  ℕ, ◌+◌, Bool, true, false, Option, none, some, List, [], ◌∷◌, ◌==◌, if◌then◌else◌, CString,
  starts_with, drop, length, get_elem?,
}
use okfs.Base.Int.{ℤ, pos, neg}
use okfs.Stat.{Stat, Result, ok, err, efault, eio, eopnotsupp}
use okfs.Fd.{OkfsFile}
use okfs.Memory.{Ptrace, Buffer}
use okfs.Namei.{canonical}
use okfs.Dcache.{Cache, find_inode, add_inode, update}

-- An operation changes the world outside: it succeeds with a value, or fails with a number of errno.
abbrev pub Op {ℓ} : Type 0 → Type ℓ → Type ℓ
Op W A = W → Result A × W

-- What an operation of a file system can change: the world outside, and the caches behind the
-- superblock that it is given, by the numbers of the file systems.
pub record Shared (W : Type 0) : Type 0 where
  pub world : W
  pub caches : ℕ → Cache

abbrev pub FsOp {ℓ} : Type 0 → Type ℓ → Type ℓ
FsOp W A = Shared W → Result A × Shared W

-- An operation that leaves the caches alone
abbrev pub on_world {ℓ} : {W : Type 0} {A : Type ℓ} → Op W A → FsOp W A
on_world op t = let (r, w) = op t.world in (r, record t { world = w })

-- struct fs_entry_point: a file system may leave operations out. The operations on one file system
-- get the path from its mount point on, and return -errno for an error; they may change the caches,
-- as the listing of a directory does.
pub record FsEntry (W : Type 0) : Type 0 where
  pub lstat : Option (CString → FsOp W Stat)
  pub readlink : Option (CString → ℕ → FsOp W CString)
  pub link : Option (CString → CString → FsOp W ℕ)
  pub unlink : Option (CString → FsOp W ℕ)
  pub access : Option (CString → ℕ → FsOp W ℕ)
  pub rename : Option (CString → CString → FsOp W ℕ)
  pub rmdir : Option (CString → FsOp W ℕ)
  pub mkdir : Option (CString → ℕ → FsOp W ℕ)
  pub symlink : Option (CString → CString → FsOp W ℕ)
  pub utime : Option (CString → Option Buffer → FsOp W ℕ)
  pub chmod : Option (CString → ℕ → FsOp W ℕ)
  pub truncate : Option (CString → ℕ → FsOp W ℕ)
  pub statfs : Option (CString → FsOp W Buffer)
  pub lchown : Option (CString → ℕ → ℕ → FsOp W ℕ)
  pub read : Option (OkfsFile → (fsfd : ℤ) → (count : ℕ) → FsOp W CString)
  pub write : Option (OkfsFile → (fsfd : ℤ) → Buffer → (count : ℕ) → FsOp W ℕ)
  pub lseek : Option (OkfsFile → (fsfd offset origin : ℤ) → FsOp W ℕ)

-- struct okfs_superblock; its tables are the cache of its number.
pub record Superblock (W : Type 0) : Type 0 where
  pub mnt_point : CString
  pub entry : FsEntry W

-- The calls of the operating system that the handlers make with the path of a file of its own.
pub record Os (W : Type 0) : Type 0 where
  pub lstat : CString → Op W Stat
  pub stat : CString → Op W Stat
  pub readlink : CString → ℕ → Op W CString
  pub link : CString → CString → Op W ℕ
  pub unlink : CString → Op W ℕ
  pub access : CString → ℕ → Op W ℕ
  pub rename : CString → CString → Op W ℕ
  pub rmdir : CString → Op W ℕ
  pub mkdir : CString → ℕ → Op W ℕ
  pub symlink : CString → CString → Op W ℕ
  pub utime : CString → Option Buffer → Op W ℕ
  pub chmod : CString → ℕ → Op W ℕ
  pub truncate : CString → ℕ → Op W ℕ
  pub statfs : CString → Op W Buffer
  pub lchown : CString → ℕ → ℕ → Op W ℕ
  pub mknod : CString → ℕ → ℕ → Op W ℕ
  pub acct : CString → Op W ℕ
  pub time : W → ℕ

-- What the switch stands on: the system, the process's memory, the kernel's hash function and the
-- layout of its structures, PATH_MAX, the fuel for canonical(), and the list mounted_fs.
pub record Env : Type 1 where
  pub World : Type 0
  pub os : Os World
  pub ptrace : Ptrace
  pub full_name_hash : CString → ℕ
  pub stat_bytes : Stat → Buffer
  pub sizeof_stat : ℕ
  pub sizeof_statfs : ℕ
  pub sizeof_utimbuf : ℕ
  pub path_max : ℕ
  pub fuel : ℕ
  pub mounted_fs : List (Superblock World)

-- The first mounted file system whose mount point the path starts with, by its number.
unfoldable pub find_mount :
    {W : Type 0} → ℕ → List (Superblock W) → CString → Option (ℕ × Superblock W)
find_mount i [] path = none
find_mount i (fsp ∷ rest) path =
    if starts_with fsp.mnt_point path then some (i, fsp) else find_mount (1 + i) rest path

-- The file system that a path belongs to, with the path from its mount point on.
pub record Place (W : Type 0) : Type 0 where
  pub number : ℕ
  pub fsp : Superblock W
  pub rel_path : CString

pub record Resolved (W : Type 0) : Type 0 where
  pub canon_path : CString
  pub place : Option (Place W)

-- One half of struct fs_resolve: the path that was read from the process, and what became of it.
pub record Callfs (W : Type 0) : Type 0 where
  pub path : Option CString
  pub resolved : Option (Resolved W)

-- The state of a call: the world, the caches of the file systems by their numbers, the fields of the
-- calling task, and the value it gets.
pub record Vfs (E : Env) : Type 0 where
  pub world : E.World
  pub caches : ℕ → Cache
  pub cwd : CString
  pub mem : E.ptrace.Mem
  pub ret : ℤ
  pub callfs1 : Callfs E.World
  pub callfs2 : Callfs E.World

-- A null slot of fs_resolve
abbrev pub clean : {W : Type 0} → Callfs W
clean = record { path = none; resolved = none }

module _ (E : Env) where
  open E use {World, os, full_name_hash, path_max, fuel, mounted_fs}

  -- What the operations of the file systems see of a state
  abbrev pub shared : Vfs E → Shared World
  shared s = record { world = s.world; caches = s.caches }

  -- A call of a file system, in the state.
  unfoldable pub call_fs {ℓ} : {A : Type ℓ} → FsOp World A → Vfs E → Result A × Vfs E
  call_fs op s = let (r, t) = op (shared s) in (r, record s { world = t.world; caches = t.caches })

  -- A call of the system, in the state.
  unfoldable pub call {ℓ} : {A : Type ℓ} → Op World A → Vfs E → Result A × Vfs E
  call op s = let (r, w) = op s.world in (r, record s { world = w })

  -- okfs_dolstat behind the look into the cache: what the file system says goes into the cache.
  unfoldable pub learn : ℕ → CString → Result Stat × Vfs E → Result Stat × Vfs E
  learn i fullpath (err e, s) = (err e, s)
  learn i fullpath (ok buf, s) = elim (find_inode full_name_hash (s.caches i) fullpath) [
    | some p ↦ (ok buf, s)
    | none ↦ (
      ok buf,
      record s {
        caches = update s.caches i (add_inode full_name_hash (s.caches i) fullpath buf none).1;
      },
    )
  ]

  -- The state of a file that is in the cache.
  unfoldable pub cached : Cache → CString → Option Stat
  cached c path = elim (find_inode full_name_hash c path) [
    | none ↦ none
    | some p ↦ elim (get_elem? c.inodes p) [ none ↦ none | some inode ↦ some inode.statbuf ]
  ]

  -- okfs_dolstat
  unfoldable pub dolstat :
      ℕ → Superblock World → (fullpath path : CString) → Vfs E → Result Stat × Vfs E
  unfolding cached learn call_fs
  dolstat i fsp fullpath path s = elim fsp.entry.lstat [
    | none ↦ (err eopnotsupp, s)
    | some lstat ↦ elim (cached (s.caches i) fullpath) [
      | some buf ↦ (ok buf, s)
      | none ↦ learn i fullpath (call_fs (lstat path) s)
    ]
  ]

  -- okfs_arglstat
  unfoldable pub arglstat : CString → Vfs E → Result Stat × Vfs E
  unfolding find_mount dolstat call
  arglstat path s = elim (find_mount 0 mounted_fs path) [
    | none ↦ call (os.lstat path) s
    | some (i, fsp) ↦ dolstat i fsp path (drop (length fsp.mnt_point) path) s
  ]

  -- okfs_argreadlink
  unfoldable pub argreadlink : (bufsize : ℕ) → CString → Vfs E → Result CString × Vfs E
  unfolding find_mount call call_fs
  argreadlink bufsize path s = elim (find_mount 0 mounted_fs path) [
    | none ↦ call (os.readlink path bufsize) s
    | some (i, fsp) ↦ elim fsp.entry.readlink [
      | none ↦ (err eio, s)
      | some readlink ↦ call_fs (readlink (drop (length fsp.mnt_point) path) bufsize) s
    ]
  ]

  -- The search of proc_path1 and proc_path2 for the file system of a canonical path.
  unfoldable pub locate : CString → Resolved World
  unfolding find_mount
  locate canon_path = elim (find_mount 0 mounted_fs canon_path) [
    | none ↦ record { canon_path = canon_path; place = none }
    | some (i, fsp) ↦ record {
      canon_path = canon_path;
      place =
          some
            (record { number = i; fsp = fsp; rel_path = drop (length fsp.mnt_point) canon_path });
    }
  ]

  -- canonicalize and lcanonicalize in the working directory; `none`: out of fuel.
  unfoldable pub canonicalize :
      (read_last_link : Bool) → CString → Vfs E → Option (Result CString × Vfs E)
  unfolding arglstat argreadlink
  canonicalize read_last_link path s =
      canonical arglstat (argreadlink path_max) path_max read_last_link fuel (some s.cwd)
        (some path) s

  -- proc_path1 and proc_path2: `arg` is the string that slave_getstr reads at the argument, none for
  -- a null pointer. The two differ in the half of fs_resolve that they fill.
  unfoldable pub resolve :
      (read_last_link : Bool)
      → (arg : Option CString) → Vfs E
      → Option (Result (Resolved World) × Vfs E)
  unfolding canonicalize locate
  resolve read_last_link none s = some (err efault, s)
  resolve read_last_link (some path) s = elim (canonicalize read_last_link path s) [
    | none ↦ none
    | some (err e, s') ↦ some (err e, s')
    | some (ok canon_path, s') ↦ some (ok (locate canon_path), s')
  ]

  abbrev pub filled : Option CString → Result (Resolved World) → Callfs World
  filled arg (err e) = record { path = arg; resolved = none }
  filled arg (ok r) = record { path = arg; resolved = some r }

  unfoldable pub proc_path1 :
      Bool → Option CString → Vfs E → Option (Result (Resolved World) × Vfs E)
  unfolding resolve
  proc_path1 read_last_link arg s = elim (resolve read_last_link arg s) [
    | none ↦ none
    | some (r, s') ↦ some (r, record s' { callfs1 = filled arg r })
  ]

  unfoldable pub proc_path2 :
      Bool → Option CString → Vfs E → Option (Result (Resolved World) × Vfs E)
  unfolding resolve
  proc_path2 read_last_link arg s = elim (resolve read_last_link arg s) [
    | none ↦ none
    | some (r, s') ↦ some (r, record s' { callfs2 = filled arg r })
  ]

  unfoldable pub clean_path1 : Vfs E → Vfs E
  clean_path1 s = record s { callfs1 = clean }

  unfoldable pub clean_path2 : Vfs E → Vfs E
  clean_path2 s = record s { callfs2 = clean }

-- set_slave_return and force_call_return: what the process gets of the call.
unfoldable pub set_return : {E : Env} → ℤ → Vfs E → Vfs E
set_return ret s = record s { ret = ret }

-- `if (ret < 0) ret = -errno`, and what a file system returns.
abbrev pub value : Result ℕ → ℤ
value (ok n) = pos n
value (err e) = neg e
