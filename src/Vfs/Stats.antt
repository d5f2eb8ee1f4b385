-- ===== src/Vfs/Stats.antt =====
-- The calls of vfs_stat.c that take a path: stat, lstat, stat64 and lstat64.
use okfs.Base.{ℕ, Bool, not, Option, none, some, CString}
use okfs.Base.Int.{ℤ, pos, neg}
use okfs.Stat.{Stat, Result, ok, err}
use okfs.Memory.{Buffer, memset}
use okfs.Vfs.{Op, Env, Vfs, call, dolstat}
use okfs.Vfs.Calls.{read_last_link, on_path1}

-- struct stat64: the fields of struct stat, and what the old one has no room for
pub record Stat64 : Type 0 where
  pub fields : Stat
  pub st_atime_nsec : ℕ
  pub st_mtime_nsec : ℕ
  pub st_ctime_nsec : ℕ

-- creat_stat64: the fields that both have are copied, all else is 0.
unfoldable pub creat_stat64 : Stat → Stat64
creat_stat64 buf = record {
  fields = record {
    st_dev = buf.st_dev;
    st_rdev = buf.st_rdev;
    st_ino = buf.st_ino;
    st_mode = buf.st_mode;
    st_nlink = buf.st_nlink;
    st_uid = buf.st_uid;
    st_gid = buf.st_gid;
    st_atime = buf.st_atime;
    st_mtime = buf.st_mtime;
    st_ctime = buf.st_ctime;
    st_size = buf.st_size;
    st_blocks = buf.st_blocks;
    st_blksize = buf.st_blksize;
  };
  st_atime_nsec = 0;
  st_mtime_nsec = 0;
  st_ctime_nsec = 0;
}

-- The two structures as the process sees them, by the layout of the kernel's headers, and the system's
-- own calls for the larger one.
pub record Layout64 (W : Type 0) : Type 0 where
  pub stat64_bytes : Stat64 → Buffer
  pub sizeof_stat64 : ℕ
  pub stat64 : CString → Op W Stat64
  pub lstat64 : CString → Op W Stat64

module _ (E : Env) where
  open E use {World, os, ptrace}

  -- `if (ret == 0) slave_memset((void *)ARG2, &buf, sizeof(buf))`
  unfoldable pub give_stat : (arg2 : ℕ) → Result Stat × Vfs E → Option (ℤ × Vfs E)
  give_stat arg2 (err e, s) = some (neg e, s)
  give_stat arg2 (ok buf, s) =
      some (pos 0, record s { mem = memset ptrace s.mem arg2 (E.stat_bytes buf) E.sizeof_stat })

  -- okfs_stat (option is READ_LAST_LINK, and the system's call is stat) and okfs_lstat
  -- (!READ_LAST_LINK, lstat)
  unfoldable pub stat_call :
      Bool → (CString → Op World Stat) → Option CString → (arg2 : ℕ) → Vfs E → Option (Vfs E)
  unfolding on_path1 give_stat
  stat_call option os_op arg arg2 = on_path1 E option arg (λ r s. elim r.place [
    | none ↦ give_stat arg2 (call E (os_op r.canon_path) s)
    | some p ↦ give_stat arg2 (dolstat E p.number p.fsp r.canon_path p.rel_path s)
  ])

  unfoldable pub okfs_stat : Option CString → (arg2 : ℕ) → Vfs E → Option (Vfs E)
  unfolding stat_call
  okfs_stat = stat_call read_last_link os.stat

  unfoldable pub okfs_lstat : Option CString → (arg2 : ℕ) → Vfs E → Option (Vfs E)
  unfolding stat_call
  okfs_lstat = stat_call (not read_last_link) os.lstat

  unfoldable pub give_stat64 :
      Layout64 World → (arg2 : ℕ) → Result Stat64 × Vfs E → Option (ℤ × Vfs E)
  give_stat64 L arg2 (err e, s) = some (neg e, s)
  give_stat64 L arg2 (ok buf, s) =
      some (pos 0, record s { mem = memset ptrace s.mem arg2 (L.stat64_bytes buf) L.sizeof_stat64 })

  abbrev pub widened : Result Stat × Vfs E → Result Stat64 × Vfs E
  widened (err e, s) = (err e, s)
  widened (ok buf, s) = (ok (creat_stat64 buf), s)

  -- okfs_stat64 and okfs_lstat64
  unfoldable pub stat64_call :
      Layout64 World
      → Bool
      → (CString → Op World Stat64)
      → Option CString
      → (arg2 : ℕ) → Vfs E
      → Option (Vfs E)
  unfolding on_path1 give_stat64 creat_stat64
  stat64_call L option os_op arg arg2 = on_path1 E option arg (λ r s. elim r.place [
    | none ↦ give_stat64 L arg2 (call E (os_op r.canon_path) s)
    | some p ↦ give_stat64 L arg2 (widened (dolstat E p.number p.fsp r.canon_path p.rel_path s))
  ])

  unfoldable pub okfs_stat64 : Layout64 World → Option CString → (arg2 : ℕ) → Vfs E → Option (Vfs E)
  unfolding stat64_call
  okfs_stat64 L = stat64_call L read_last_link L.stat64

  unfoldable pub okfs_lstat64 :
      Layout64 World → Option CString → (arg2 : ℕ) → Vfs E → Option (Vfs E)
  unfolding stat64_call
  okfs_lstat64 L = stat64_call L (not read_last_link) L.lstat64
