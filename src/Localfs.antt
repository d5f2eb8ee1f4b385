-- ===== src/Localfs.antt =====
-- filesystems/localfs/localfs.c: a directory of the system, mounted at another place. Each operation
-- is the system's call on the path behind that directory.
pub mod Host
use okfs.Base.{ℕ, Option, some, ◌++◌, CString}
use okfs.Base.Int.{ℤ}
use okfs.Stat.{Stat}
use okfs.Memory.{Buffer}
use okfs.Fd.{OkfsFile}
use okfs.Vfs.{on_world, Op, FsEntry, Superblock, Os}

-- The calls of the system that only localfs makes
pub record LocalOs (W : Type 0) : Type 0 where
  pub chown : CString → ℕ → ℕ → Op W ℕ
  pub read : ℤ → ℕ → Op W CString
  pub write : ℤ → Buffer → ℕ → Op W ℕ
  pub lseek : (fd offset whence : ℤ) → Op W ℕ

-- creat_path
abbrev pub creat_path : (fs_spec path : CString) → CString
creat_path fs_spec path = fs_spec ++ path

module _ {W : Type 0} (os : Os W) (l : LocalOs W) where
  abbrev pub localfs_rmdir : CString → CString → Op W ℕ
  localfs_rmdir fs_spec path = os.rmdir (creat_path fs_spec path)

  abbrev pub localfs_mkdir : CString → CString → ℕ → Op W ℕ
  localfs_mkdir fs_spec path mode = os.mkdir (creat_path fs_spec path) mode

  abbrev pub localfs_lstat : CString → CString → Op W Stat
  localfs_lstat fs_spec path = os.lstat (creat_path fs_spec path)

  abbrev pub localfs_access : CString → CString → ℕ → Op W ℕ
  localfs_access fs_spec path mode = os.access (creat_path fs_spec path) mode

  abbrev pub localfs_lseek : OkfsFile → (fd offset whence : ℤ) → Op W ℕ
  localfs_lseek fp fd offset whence = l.lseek fd offset whence

  abbrev pub localfs_read : OkfsFile → (fd : ℤ) → (count : ℕ) → Op W CString
  localfs_read fp fd count = l.read fd count

  abbrev pub localfs_write : OkfsFile → (fd : ℤ) → Buffer → (count : ℕ) → Op W ℕ
  localfs_write fp fd buf count = l.write fd buf count

  abbrev pub localfs_readlink : CString → CString → ℕ → Op W CString
  localfs_readlink fs_spec path bufsize = os.readlink (creat_path fs_spec path) bufsize

  abbrev pub localfs_rename : CString → CString → CString → Op W ℕ
  localfs_rename fs_spec path1 path2 =
      os.rename (creat_path fs_spec path1) (creat_path fs_spec path2)

  abbrev pub localfs_link : CString → CString → CString → Op W ℕ
  localfs_link fs_spec path1 path2 = os.link (creat_path fs_spec path1) (creat_path fs_spec path2)

  -- The content of the link is not moved.
  abbrev pub localfs_symlink : CString → CString → CString → Op W ℕ
  localfs_symlink fs_spec path1 path2 = os.symlink path1 (creat_path fs_spec path2)

  abbrev pub localfs_unlink : CString → CString → Op W ℕ
  localfs_unlink fs_spec path = os.unlink (creat_path fs_spec path)

  abbrev pub localfs_chmod : CString → CString → ℕ → Op W ℕ
  localfs_chmod fs_spec path mode = os.chmod (creat_path fs_spec path) mode

  -- It is chown() that is called, which follows a link.
  abbrev pub localfs_lchown : CString → CString → ℕ → ℕ → Op W ℕ
  localfs_lchown fs_spec path owner group = l.chown (creat_path fs_spec path) owner group

  abbrev pub localfs_truncate : CString → CString → ℕ → Op W ℕ
  localfs_truncate fs_spec path length = os.truncate (creat_path fs_spec path) length

  abbrev pub localfs_statfs : CString → CString → Op W Buffer
  localfs_statfs fs_spec path = os.statfs (creat_path fs_spec path)

  -- localfs_utime; `buf` is none for a null pointer.
  abbrev pub localfs_utime : CString → CString → Option Buffer → Op W ℕ
  localfs_utime fs_spec path buf = os.utime (creat_path fs_spec path) buf

  -- The operations that fs_table of vfs_mount.c has for "localfs"
  abbrev pub localfs_entry : (fs_spec : CString) → FsEntry W
  localfs_entry fs_spec = record {
    lstat = some (λ path. on_world (localfs_lstat fs_spec path));
    readlink = some (λ path x. on_world (localfs_readlink fs_spec path x));
    link = some (λ path x. on_world (localfs_link fs_spec path x));
    unlink = some (λ path. on_world (localfs_unlink fs_spec path));
    access = some (λ path x. on_world (localfs_access fs_spec path x));
    rename = some (λ path x. on_world (localfs_rename fs_spec path x));
    rmdir = some (λ path. on_world (localfs_rmdir fs_spec path));
    mkdir = some (λ path x. on_world (localfs_mkdir fs_spec path x));
    symlink = some (λ path x. on_world (localfs_symlink fs_spec path x));
    utime = some (λ path x. on_world (localfs_utime fs_spec path x));
    chmod = some (λ path x. on_world (localfs_chmod fs_spec path x));
    truncate = some (λ path x. on_world (localfs_truncate fs_spec path x));
    statfs = some (λ path. on_world (localfs_statfs fs_spec path));
    lchown = some (λ path x y. on_world (localfs_lchown fs_spec path x y));
    read = some (λ fp fd n. on_world (localfs_read fp fd n));
    write = some (λ fp fd b n. on_world (localfs_write fp fd b n));
    lseek = some (λ fp fd o w. on_world (localfs_lseek fp fd o w));
  }

  abbrev pub localfs_at : CString × CString → Superblock W
  localfs_at (mnt_point, fs_spec) = record { mnt_point = mnt_point; entry = localfs_entry fs_spec }
