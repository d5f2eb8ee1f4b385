-- ===== src/Vfs/Invariant.antt =====
-- Every call leaves the task ready for the next one.
use mathlib.Core.Path.{subst}
use okfs.Base.{
  ℕ, ◌+◌, ◌≡◌, Bool, not, Option, none, some, List, [], ◌∷◌, ◌==◌, ltb, CString, length,
}
use okfs.Base.Int.{neg}
use okfs.Stat.{Stat, eperm, eopnotsupp}
use okfs.Vfs.{Op, FsEntry, Env, Vfs, call, arglstat, dolstat, set_return, call_fs, FsOp}
use okfs.Vfs.Entries.{add_entry, remove_entry}
use okfs.Vfs.Calls.{
  read_last_link, delegate, with_args, times_at, ask_os, after_success, okfs_unlink, okfs_rmdir,
  okfs_mkdir, okfs_access, okfs_chmod, okfs_truncate, okfs_dochown, okfs_utime, okfs_mknod,
  okfs_acct,
}
use okfs.Vfs.Pairs.{
  moves, on_pair, okfs_link, okfs_rename, okfs_symlink, okfs_readlink, okfs_statfs, okfs_chdir,
  okfs_getcwd,
}
use okfs.Vfs.Stats.{
  Layout64, Stat64, stat_call, stat64_call, widened, okfs_stat, okfs_lstat, okfs_stat64,
  okfs_lstat64,
}
use okfs.Vfs.Table.{
  PathCall, unlink, rmdir, mkdir, access, chmod, truncate, chown, lchown, utime, mknod, acct, link,
  rename, symlink, readlink, statfs, chdir, getcwd, stat, lstat, stat64, lstat64, handle,
  handle_all,
}
use okfs.Vfs.Keeps.{
  on_option, on_test, Fine-refl, Fine-trans, FineEnd, FineState, call-Fine, call_fs-Fine,
  dolstat-Fine, arglstat-Fine, add_entry-Fine, remove_entry-Fine,
}
use okfs.Vfs.Bodies.{
  Gentle, after_success-Fine, ask_os-Fine, delegate-Fine, nothing-Gentle, adds-Gentle,
  removes-Gentle, resizes-Gentle, on_pair-Fine, give_text-Fine, give_buffer-Fine, give_stat-Fine,
  give_stat64-Fine, widened-Fine, enter-Fine,
}
use okfs.Vfs.Ready.{
  Ready, ReadyAll, FineBody, FinePair, on_path1-Ready, on_path2-Ready, pair-Ready, through-Ready,
}

module _ (E : Env) where
  open E use {World, os}

  adds_new-Gentle : (i : ℕ) (p q : CString) → Gentle (λ (t : Vfs E). some (add_entry E i q t))
  unfolding Gentle FineState
  adds_new-Gentle i p q t = add_entry-Fine E i q t

  moves-Gentle : (i : ℕ) (p q : CString) → Gentle (moves E i p q)
  unfolding Gentle FineState
  moves-Gentle i p q t = go (remove_entry E i p t) (remove_entry-Fine E i p t)
    where
      go :
          (o : Option (Vfs E))
          → FineState t o
          → FineState t (elim o [ none ↦ none | some s' ↦ some (add_entry E i q s') ])
      go none f = tt
      go (some s') f = Fine-trans f (add_entry-Fine E i q s')

  symlink-Fine :
      (old : CString)
      → FineBody E (λ r s'. elim r.place [
        | none ↦ ask_os E (os.symlink old r.canon_path) s'
        | some p ↦ elim p.fsp.entry.symlink [
          | none ↦ some (neg eopnotsupp, s')
          | some op ↦
              after_success E
                (λ s2. some (add_entry E p.number r.canon_path s2))
                (call_fs E (op old p.rel_path) s')
        ]
      ])
  unfolding FineEnd
  symlink-Fine old r t c = on_option (FineEnd t) r.place _ _ (ask_os-Fine E _ t) (λ p.
      on_option (FineEnd t) p.fsp.entry.symlink _ _ (Fine-refl t) (λ op.
        after_success-Fine E _ (adds-Gentle E p.number r.canon_path) t
          (call_fs E (op old p.rel_path) t) (call_fs-Fine E _ t)))

  readlink-Ready :
      (arg : Option CString) (arg2 bufsize : ℕ) (s : Vfs E)
      → Ready s
      → ReadyAll (okfs_readlink E arg arg2 bufsize s)
  unfolding okfs_readlink FineEnd
  readlink-Ready arg arg2 bufsize s h =
      on_path1-Ready E (not read_last_link) arg _
        (λ r t c. on_test (FineEnd t) (bufsize == 0) _ _ (Fine-refl t) (
          on_option (FineEnd t) r.place _ _
            (give_text-Fine E arg2 t (call E (os.readlink r.canon_path bufsize) t)
              (call-Fine E _ t))
            (λ p. on_option (FineEnd t) p.fsp.entry.readlink _ _ (Fine-refl t) (λ op.
              give_text-Fine E arg2 t (call_fs E (op p.rel_path bufsize) t) (call_fs-Fine E _ t)))))
        s h

  statfs-Ready :
      (arg : Option CString) (arg2 : ℕ) (s : Vfs E) → Ready s → ReadyAll (okfs_statfs E arg arg2 s)
  unfolding okfs_statfs FineEnd
  statfs-Ready arg arg2 s h =
      on_path1-Ready E read_last_link arg _
        (λ r t c.
          on_option (FineEnd t) r.place _ _
            (give_buffer-Fine E _ arg2 t (call E (os.statfs r.canon_path) t) (call-Fine E _ t))
            (λ p. on_option (FineEnd t) p.fsp.entry.statfs _ _ (Fine-refl t) (λ op.
              give_buffer-Fine E _ arg2 t (call_fs E (op p.rel_path) t) (call_fs-Fine E _ t))))
        s h

  stat_call-Ready :
      (option : Bool) (os_op : CString → Op World Stat) (arg : Option CString) (arg2 : ℕ)
      (s : Vfs E)
      → Ready s
      → ReadyAll (stat_call E option os_op arg arg2 s)
  unfolding stat_call FineEnd
  stat_call-Ready option os_op arg arg2 s h =
      on_path1-Ready E option arg _
        (λ r t c.
          on_option (FineEnd t) r.place _ _
            (give_stat-Fine E arg2 t (call E (os_op r.canon_path) t) (call-Fine E _ t))
            (λ p.
              give_stat-Fine E arg2 t (dolstat E p.number p.fsp r.canon_path p.rel_path t)
                (dolstat-Fine E p.number p.fsp r.canon_path p.rel_path t)))
        s h

  stat64_call-Ready :
      (L : Layout64 World) (option : Bool) (os_op : CString → Op World Stat64)
      (arg : Option CString) (arg2 : ℕ) (s : Vfs E)
      → Ready s
      → ReadyAll (stat64_call E L option os_op arg arg2 s)
  unfolding stat64_call FineEnd
  stat64_call-Ready L option os_op arg arg2 s h =
      on_path1-Ready E option arg _
        (λ r t c.
          on_option (FineEnd t) r.place _ _
            (give_stat64-Fine E L arg2 t (call E (os_op r.canon_path) t) (call-Fine E _ t))
            (λ p.
              let x = dolstat E p.number p.fsp r.canon_path p.rel_path t in
              give_stat64-Fine E L arg2 t (widened E x)
                (widened-Fine E t x (dolstat-Fine E p.number p.fsp r.canon_path p.rel_path t))))
        s h

  chdir-Ready : (arg : Option CString) (s : Vfs E) → Ready s → ReadyAll (okfs_chdir E arg s)
  unfolding okfs_chdir
  chdir-Ready arg s h =
      on_path1-Ready E read_last_link arg _
        (λ r t c.
          enter-Fine E r.canon_path t (arglstat E r.canon_path t) c
            (arglstat-Fine E r.canon_path t))
        s h

  getcwd-Ready : (buf size : ℕ) (s : Vfs E) → Ready s → Ready (okfs_getcwd E buf size s)
  unfolding okfs_getcwd set_return
  getcwd-Ready buf size s h =
      on_test Ready (ltb size (length s.cwd + 1)) _ _
        (record { cwd = h.cwd; clean1 = h.clean1; clean2 = h.clean2 })
        (record { cwd = h.cwd; clean1 = h.clean1; clean2 = h.clean2 })

  delegates :
      (fs_op : FsEntry World → Option (CString → FsOp World ℕ))
      (after : ℕ → CString → Vfs E → Option (Vfs E)) (os_op : CString → Op World ℕ)
      → ((i : ℕ) (p : CString) → Gentle (after i p))
      → FineBody E (delegate E fs_op after os_op)
  delegates fs_op after os_op g r t c = delegate-Fine E fs_op after os_op r t g

  pairs :
      (missing : ℕ) (fs_op : FsEntry World → Option (CString → CString → FsOp World ℕ))
      (after : ℕ → (path1 path2 : CString) → Vfs E → Option (Vfs E))
      (os_op : CString → CString → Op World ℕ)
      → ((i : ℕ) (p q : CString) → Gentle (after i p q))
      → FinePair E (on_pair E missing fs_op after os_op)
  pairs missing fs_op after os_op g r1 r2 t = on_pair-Fine E missing fs_op after os_op r1 r2 t g

  one-Ready : (L : Layout64 World) (c : PathCall) (s : Vfs E) → Ready s → ReadyAll (handle E L c s)
  unfolding handle okfs_unlink okfs_rmdir okfs_mkdir okfs_access okfs_chmod okfs_truncate
      okfs_dochown okfs_utime okfs_mknod okfs_acct okfs_link okfs_rename okfs_symlink okfs_stat
      okfs_lstat okfs_stat64 okfs_lstat64
  one-Ready L (unlink a) s h = on_path1-Ready E _ a _ (delegates _ _ _ (removes-Gentle E)) s h
  one-Ready L (rmdir a) s h = on_path1-Ready E _ a _ (delegates _ _ _ (removes-Gentle E)) s h
  one-Ready L (mkdir a mode) s h = on_path1-Ready E _ a _ (delegates _ _ _ (adds-Gentle E)) s h
  one-Ready L (access a mode) s h = on_path1-Ready E _ a _ (delegates _ _ _ (nothing-Gentle E)) s h
  one-Ready L (chmod a mode) s h = on_path1-Ready E _ a _ (delegates _ _ _ (nothing-Gentle E)) s h
  one-Ready L (truncate a n) s h = on_path1-Ready E _ a _ (delegates _ _ _ (resizes-Gentle E n)) s h
  one-Ready L (chown a o g) s h = on_path1-Ready E _ a _ (delegates _ _ _ (nothing-Gentle E)) s h
  one-Ready L (lchown a o g) s h = on_path1-Ready E _ a _ (delegates _ _ _ (nothing-Gentle E)) s h
  one-Ready L (utime a times) s h =
      on_path1-Ready E _ a _
        (λ r t c.
          delegate-Fine E (λ e. with_args E e.utime (λ f. f (times_at E times t))) _
            (λ path. os.utime path (times_at E times t)) r t (nothing-Gentle E))
        s h
  one-Ready L (mknod a mode dev) s h =
      on_path1-Ready E _ a _ (delegates (λ e. none) _ _ (nothing-Gentle E)) s h
  one-Ready L (acct a) s h =
      on_path1-Ready E _ a _ (delegates (λ e. none) _ _ (nothing-Gentle E)) s h
  one-Ready L (link a b) s h =
      through-Ready E (okfs_link E) (λ t c. pair-Ready E _ (pairs eperm _ _ _ adds_new-Gentle) t c)
        a b s h
  one-Ready L (rename a b) s h =
      through-Ready E (okfs_rename E)
        (λ t c. pair-Ready E _ (pairs eopnotsupp _ _ _ moves-Gentle) t c) a b s h
  one-Ready L (symlink old b) s h = on_path2-Ready E b _ (symlink-Fine old) s h
  one-Ready L (readlink a buf size) s h = readlink-Ready a buf size s h
  one-Ready L (statfs a buf) s h = statfs-Ready a buf s h
  one-Ready L (chdir a) s h = chdir-Ready a s h
  one-Ready L (getcwd buf size) s h = getcwd-Ready buf size s h
  one-Ready L (stat a buf) s h = stat_call-Ready _ _ a buf s h
  one-Ready L (lstat a buf) s h = stat_call-Ready _ _ a buf s h
  one-Ready L (stat64 a buf) s h = stat64_call-Ready L _ _ a buf s h
  one-Ready L (lstat64 a buf) s h = stat64_call-Ready L _ _ a buf s h

  all-Ready :
      (L : Layout64 World) (cs : List PathCall) (s : Vfs E)
      → Ready s
      → ReadyAll (handle_all E L cs s)
  unfolding handle_all
  all-Ready L [] s h = h
  all-Ready L (c ∷ cs) s h = go (handle E L c s) (one-Ready L c s h) (λ t k. all-Ready L cs t k)
    where
      go :
          (o : Option (Vfs E))
          → ReadyAll o
          → ((t : Vfs E) → Ready t → ReadyAll (handle_all E L cs t))
          → ReadyAll (elim o [ none ↦ none | some s' ↦ handle_all E L cs s' ])
      go none k again = tt
      go (some t) k again = again t k

  -- Whatever calls on paths a task makes and whatever the file systems answer: if the task starts with
  -- a canonical working directory and an empty fs_resolve, it is so after every sequence of calls that
  -- comes to its end. So no handler leaves a path allocated, on any branch, and okfs_chdir sets only
  -- canonical paths.
  pub handle_all-Ready :
      (L : Layout64 World) (cs : List PathCall) (s s' : Vfs E)
      → Ready s
      → handle_all E L cs s ≡ some s'
      → Ready s'
  handle_all-Ready L cs s s' h e = subst ReadyAll e (all-Ready L cs s h)
