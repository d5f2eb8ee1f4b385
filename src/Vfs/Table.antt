-- ===== src/Vfs/Table.antt =====
-- The calls on paths and on the working directory, as the table of entry.c installs their handlers,
-- and runs of several of them.
use okfs.Base.{ℕ, not, Option, none, some, List, [], ◌∷◌, CString}
use okfs.Vfs.{Env, Vfs}
use okfs.Vfs.Calls.{
  read_last_link, okfs_unlink, okfs_rmdir, okfs_mkdir, okfs_access, okfs_chmod, okfs_truncate,
  okfs_dochown, okfs_utime, okfs_mknod, okfs_acct,
}
use okfs.Vfs.Pairs.{
  before_lnk_rnm, okfs_link, okfs_rename, through, okfs_symlink, okfs_readlink, okfs_statfs,
  okfs_chdir, okfs_getcwd,
}
use okfs.Vfs.Stats.{Layout64, okfs_stat, okfs_lstat, okfs_stat64, okfs_lstat64}

-- A system call with its arguments; a path is none for a null pointer.
pub data PathCall : Type 0 where
  unlink : (path : Option CString) → PathCall
  rmdir : (path : Option CString) → PathCall
  mkdir : (path : Option CString) (mode : ℕ) → PathCall
  access : (path : Option CString) (mode : ℕ) → PathCall
  chmod : (path : Option CString) (mode : ℕ) → PathCall
  truncate : (path : Option CString) (length : ℕ) → PathCall
  chown : (path : Option CString) (owner group : ℕ) → PathCall
  lchown : (path : Option CString) (owner group : ℕ) → PathCall
  utime : (path : Option CString) (times : ℕ) → PathCall
  mknod : (path : Option CString) (mode dev : ℕ) → PathCall
  acct : (path : Option CString) → PathCall
  link : (old new : Option CString) → PathCall
  rename : (old new : Option CString) → PathCall
  symlink : (old : CString) (new : Option CString) → PathCall
  readlink : (path : Option CString) (buf size : ℕ) → PathCall
  statfs : (path : Option CString) (buf : ℕ) → PathCall
  chdir : (path : Option CString) → PathCall
  getcwd : (buf size : ℕ) → PathCall
  stat : (path : Option CString) (buf : ℕ) → PathCall
  lstat : (path : Option CString) (buf : ℕ) → PathCall
  stat64 : (path : Option CString) (buf : ℕ) → PathCall
  lstat64 : (path : Option CString) (buf : ℕ) → PathCall

module _ (E : Env) (L : Layout64 E.World) where
  -- The handlers of a call, from its entry to its exit.
  unfoldable pub handle : PathCall → Vfs E → Option (Vfs E)
  handle (unlink path) s = okfs_unlink E path s
  handle (rmdir path) s = okfs_rmdir E path s
  handle (mkdir path mode) s = okfs_mkdir E path mode s
  handle (access path mode) s = okfs_access E path mode s
  handle (chmod path mode) s = okfs_chmod E path mode s
  handle (truncate path length) s = okfs_truncate E path length s
  handle (chown path owner group) s = okfs_dochown E read_last_link path owner group s
  handle (lchown path owner group) s = okfs_dochown E (not read_last_link) path owner group s
  handle (utime path times) s = okfs_utime E path times s
  handle (mknod path mode dev) s = okfs_mknod E path mode dev s
  handle (acct path) s = okfs_acct E path s
  handle (link old new) s = through E (okfs_link E) (before_lnk_rnm E old new s)
  handle (rename old new) s = through E (okfs_rename E) (before_lnk_rnm E old new s)
  handle (symlink old new) s = okfs_symlink E old new s
  handle (readlink path buf size) s = okfs_readlink E path buf size s
  handle (statfs path buf) s = okfs_statfs E path buf s
  handle (chdir path) s = okfs_chdir E path s
  handle (getcwd buf size) s = some (okfs_getcwd E buf size s)
  handle (stat path buf) s = okfs_stat E path buf s
  handle (lstat path buf) s = okfs_lstat E path buf s
  handle (stat64 path buf) s = okfs_stat64 E L path buf s
  handle (lstat64 path buf) s = okfs_lstat64 E L path buf s

  -- One call after the other.
  unfoldable pub handle_all : List PathCall → Vfs E → Option (Vfs E)
  unfolding handle
  handle_all [] s = some s
  handle_all (c ∷ cs) s = elim (handle c s) [ none ↦ none | some s' ↦ handle_all cs s' ]
