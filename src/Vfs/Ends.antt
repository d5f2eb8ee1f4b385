-- ===== src/Vfs/Ends.antt =====
-- With enough fuel a call comes to its end.
use mathlib.Core.Path.{subst}
use okfs.Base.{
  ℕ, ◌+◌, ◌*◌, ◌<◌, ◌≡◌, refl, sym, Bool, not, Option, none, some, ◌==◌, CString, length,
}
use okfs.Stat.{Stat, Result, ok, err, is_dir_mode}
use okfs.Memory.{Buffer}
use okfs.Vfs.{Op, Env, Vfs, call, arglstat, dolstat, call_fs}
use okfs.Vfs.Calls.{
  read_last_link, nothing, adds, resizes, with_args, times_at, okfs_access, okfs_mkdir, okfs_chmod,
  okfs_truncate, okfs_dochown, okfs_utime, okfs_mknod, okfs_acct,
}
use okfs.Vfs.Pairs.{give_text, give_buffer, enter, okfs_readlink, okfs_statfs, okfs_chdir}
use okfs.Vfs.Stats.{
  Layout64, Stat64, give_stat, give_stat64, widened, stat_call, stat64_call, okfs_stat, okfs_lstat,
  okfs_stat64, okfs_lstat64,
}
use okfs.Vfs.Table.{
  PathCall, unlink, rmdir, mkdir, access, chmod, truncate, chown, lchown, utime, mknod, acct, link,
  rename, symlink, readlink, statfs, chdir, getcwd, stat, lstat, stat64, lstat64, handle,
}
use okfs.Vfs.Keeps.{on_option, on_test}
use okfs.Vfs.Total.{Ends, some_of, text_length, Enough, on_path1-Ends, delegates_end}

module _ (E : Env) where
  open E use {World, os, path_max, fuel}

  give_stat-Ends : (arg2 : ℕ) (x : Result Stat × Vfs E) → Ends (give_stat E arg2 x)
  unfolding give_stat
  give_stat-Ends arg2 (err e, t) = refl
  give_stat-Ends arg2 (ok buf, t) = refl

  give_stat64-Ends :
      (L : Layout64 World) (arg2 : ℕ) (x : Result Stat64 × Vfs E) → Ends (give_stat64 E L arg2 x)
  unfolding give_stat64
  give_stat64-Ends L arg2 (err e, t) = refl
  give_stat64-Ends L arg2 (ok buf, t) = refl

  give_text-Ends : (arg2 : ℕ) (x : Result CString × Vfs E) → Ends (give_text E arg2 x)
  unfolding give_text
  give_text-Ends arg2 (err e, t) = refl
  give_text-Ends arg2 (ok buf, t) = refl

  give_buffer-Ends : (size arg2 : ℕ) (x : Result Buffer × Vfs E) → Ends (give_buffer E size arg2 x)
  unfolding give_buffer
  give_buffer-Ends size arg2 (err e, t) = refl
  give_buffer-Ends size arg2 (ok buf, t) = refl

  enter-Ends : (p : CString) (x : Result Stat × Vfs E) → Ends (enter E p x)
  unfolding enter
  enter-Ends p (err e, t) = refl
  enter-Ends p (ok buf, t) = on_test Ends (is_dir_mode buf.st_mode) _ _ refl refl

  stat_call-Ends :
      (option : Bool) (os_op : CString → Op World Stat) (arg : Option CString) (arg2 : ℕ)
      (s : Vfs E)
      → Enough E s (text_length arg)
      → Ends (stat_call E option os_op arg arg2 s)
  unfolding stat_call
  stat_call-Ends option os_op arg arg2 s n =
      on_path1-Ends E option arg _
        (λ r t.
          on_option Ends r.place _ _ (give_stat-Ends arg2 (call E (os_op r.canon_path) t))
            (λ p. give_stat-Ends arg2 (dolstat E p.number p.fsp r.canon_path p.rel_path t)))
        s n

  stat64_call-Ends :
      (L : Layout64 World) (option : Bool) (os_op : CString → Op World Stat64)
      (arg : Option CString) (arg2 : ℕ) (s : Vfs E)
      → Enough E s (text_length arg)
      → Ends (stat64_call E L option os_op arg arg2 s)
  unfolding stat64_call
  stat64_call-Ends L option os_op arg arg2 s n =
      on_path1-Ends E option arg _
        (λ r t.
          on_option Ends r.place _ _ (give_stat64-Ends L arg2 (call E (os_op r.canon_path) t)) (λ p.
            give_stat64-Ends L arg2
              (widened E (dolstat E p.number p.fsp r.canon_path p.rel_path t))))
        s n

  readlink-Ends :
      (arg : Option CString) (arg2 bufsize : ℕ) (s : Vfs E)
      → Enough E s (text_length arg)
      → Ends (okfs_readlink E arg arg2 bufsize s)
  unfolding okfs_readlink
  readlink-Ends arg arg2 bufsize s n =
      on_path1-Ends E (not read_last_link) arg _
        (λ r t. on_test Ends (bufsize == 0) _ _ refl (
          on_option Ends r.place _ _
            (give_text-Ends arg2 (call E (os.readlink r.canon_path bufsize) t))
            (λ p.
              on_option Ends p.fsp.entry.readlink _ _ refl
                (λ op. give_text-Ends arg2 (call_fs E (op p.rel_path bufsize) t)))))
        s n

  statfs-Ends :
      (arg : Option CString) (arg2 : ℕ) (s : Vfs E)
      → Enough E s (text_length arg)
      → Ends (okfs_statfs E arg arg2 s)
  unfolding okfs_statfs
  statfs-Ends arg arg2 s n =
      on_path1-Ends E read_last_link arg _
        (λ r t.
          on_option Ends r.place _ _
            (give_buffer-Ends E.sizeof_statfs arg2 (call E (os.statfs r.canon_path) t))
            (λ p.
              on_option Ends p.fsp.entry.statfs _ _ refl
                (λ op. give_buffer-Ends E.sizeof_statfs arg2 (call_fs E (op p.rel_path) t))))
        s n

  chdir-Ends :
      (arg : Option CString) (s : Vfs E) → Enough E s (text_length arg) → Ends (okfs_chdir E arg s)
  unfolding okfs_chdir
  chdir-Ends arg s n =
      on_path1-Ends E read_last_link arg _
        (λ r t. enter-Ends r.canon_path (arglstat E r.canon_path t)) s n

  -- The length of the path of a call that takes one path and takes no name out of a cache; none for
  -- the other calls.
  abbrev pub one_path : PathCall → Option ℕ
  one_path (mkdir path mode) = some (text_length path)
  one_path (access path mode) = some (text_length path)
  one_path (chmod path mode) = some (text_length path)
  one_path (truncate path length) = some (text_length path)
  one_path (chown path owner group) = some (text_length path)
  one_path (lchown path owner group) = some (text_length path)
  one_path (utime path times) = some (text_length path)
  one_path (mknod path mode dev) = some (text_length path)
  one_path (acct path) = some (text_length path)
  one_path (readlink path buf size) = some (text_length path)
  one_path (statfs path buf) = some (text_length path)
  one_path (chdir path) = some (text_length path)
  one_path (stat path buf) = some (text_length path)
  one_path (lstat path buf) = some (text_length path)
  one_path (stat64 path buf) = some (text_length path)
  one_path (lstat64 path buf) = some (text_length path)
  one_path (unlink path) = none
  one_path (rmdir path) = none
  one_path (link old new) = none
  one_path (rename old new) = none
  one_path (symlink old new) = none
  one_path (getcwd buf size) = none

  abbrev Given : Option ℕ → Vfs E → Type 0
  Given none s = ⊥
  Given (some n) s = Enough E s n

  Given-one_path :
      (L : Layout64 World) (c : PathCall) (s : Vfs E) → Given (one_path c) s → Ends (handle E L c s)
  unfolding handle okfs_mkdir okfs_access okfs_chmod okfs_truncate okfs_dochown okfs_utime
      okfs_mknod okfs_acct okfs_stat okfs_lstat okfs_stat64 okfs_lstat64 resizes
  Given-one_path L (mkdir a mode) s n =
      on_path1-Ends E _ a _ (delegates_end E _ (adds E) _ (λ i p t. refl)) s n
  Given-one_path L (access a mode) s n =
      on_path1-Ends E _ a _ (delegates_end E _ (nothing E) _ (λ i p t. refl)) s n
  Given-one_path L (chmod a mode) s n =
      on_path1-Ends E _ a _ (delegates_end E _ (nothing E) _ (λ i p t. refl)) s n
  Given-one_path L (truncate a m) s n =
      on_path1-Ends E _ a _ (delegates_end E _ (resizes E m) _ (λ i p t. refl)) s n
  Given-one_path L (chown a o g) s n =
      on_path1-Ends E _ a _ (delegates_end E _ (nothing E) _ (λ i p t. refl)) s n
  Given-one_path L (lchown a o g) s n =
      on_path1-Ends E _ a _ (delegates_end E _ (nothing E) _ (λ i p t. refl)) s n
  Given-one_path L (utime a times) s n =
      on_path1-Ends E _ a _
        (λ r t.
          delegates_end E (λ e. with_args E e.utime (λ f. f (times_at E times t))) (nothing E)
            (λ path. os.utime path (times_at E times t)) (λ i p u. refl) r t)
        s n
  Given-one_path L (mknod a mode dev) s n =
      on_path1-Ends E _ a _ (delegates_end E (λ e. none) (nothing E) _ (λ i p t. refl)) s n
  Given-one_path L (acct a) s n =
      on_path1-Ends E _ a _ (delegates_end E (λ e. none) (nothing E) _ (λ i p t. refl)) s n
  Given-one_path L (readlink a buf size) s n = readlink-Ends a buf size s n
  Given-one_path L (statfs a buf) s n = statfs-Ends a buf s n
  Given-one_path L (chdir a) s n = chdir-Ends a s n
  Given-one_path L (stat a buf) s n = stat_call-Ends _ _ a buf s n
  Given-one_path L (lstat a buf) s n = stat_call-Ends _ _ a buf s n
  Given-one_path L (stat64 a buf) s n = stat64_call-Ends L _ _ a buf s n
  Given-one_path L (lstat64 a buf) s n = stat64_call-Ends L _ _ a buf s n
  Given-one_path L (unlink a) s n = absurd n
  Given-one_path L (rmdir a) s n = absurd n
  Given-one_path L (link a b) s n = absurd n
  Given-one_path L (rename a b) s n = absurd n
  Given-one_path L (symlink a b) s n = absurd n
  Given-one_path L (getcwd buf size) s n = absurd n

  -- A call that takes one path and takes no name out of a cache comes to its end, whatever the file
  -- systems answer and whatever links the path has, where the working directory is shorter than
  -- PATH_MAX, which is more than 1, and the fuel is more than the length of the path and twenty times
  -- PATH_MAX.
  pub handle_ends :
      (L : Layout64 World) (c : PathCall) (s : Vfs E) (n : ℕ)
      → one_path c ≡ some n
      → 1 < path_max
      → length s.cwd < path_max
      → n + 20 * path_max < fuel
      → (s' : Vfs E) × (handle E L c s ≡ some s')
  handle_ends L c s n is_one large short fueled =
      some_of (handle E L c s)
        (Given-one_path L c s (subst (λ o. Given o s) (sym is_one) (large, short, fueled)))
