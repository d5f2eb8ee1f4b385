-- ===== src/Vfs/Calls.antt =====
-- The system calls on paths of vfs_path_calls.c. `none` is a run that leaves the code: canonical()
-- is out of fuel, or a bad pointer is read.
use okfs.Base.{ℕ, Bool, true, false, not, Option, none, some, ◌==◌, if◌then◌else◌, CString, length}
use okfs.Base.Int.{ℤ, pos, neg}
use okfs.Stat.{Result, ok, err, eopnotsupp}
use okfs.Memory.{Buffer, memget}
use okfs.Dcache.{change_file_size, update}
use okfs.Vfs.{
  Op, FsEntry, Env, Place, Resolved, Vfs, call, call_fs, FsOp, proc_path1, clean_path1, clean_path2,
  set_return, value,
}
use okfs.Vfs.Entries.{add_entry, remove_entry}

-- READ_LAST_LINK
abbrev pub read_last_link : Bool
read_last_link = true

-- arg1_fsp == arg2_fsp
unfoldable pub same_fsp : {W : Type 0} → Option (Place W) → Option (Place W) → Bool
same_fsp none none = true
same_fsp none (some q) = false
same_fsp (some p) none = false
same_fsp (some p) (some q) = p.number == q.number

module _ (E : Env) where
  open E use {World, os, full_name_hash, ptrace}

  -- What follows the label `end`: set_slave_return(ret), clean_path1().
  unfoldable pub end1 : Option (ℤ × Vfs E) → Option (Vfs E)
  end1 none = none
  end1 (some (ret, s)) = some (clean_path1 E (set_return ret s))

  unfoldable pub end2 : Option (ℤ × Vfs E) → Option (Vfs E)
  end2 none = none
  end2 (some (ret, s)) = some (clean_path2 E (set_return ret s))

  -- if (proc_path1(option) < 0) { ret = -errno; goto end; }, then the rest of a handler
  unfoldable pub proceed :
      (Resolved World → Vfs E → Option (ℤ × Vfs E))
      → Option (Result (Resolved World) × Vfs E)
      → Option (ℤ × Vfs E)
  proceed body none = none
  proceed body (some (err e, s)) = some (neg e, s)
  proceed body (some (ok r, s)) = body r s

  unfoldable pub on_path1 :
      Bool → Option CString → (Resolved World → Vfs E → Option (ℤ × Vfs E)) → Vfs E → Option (Vfs E)
  unfolding end1 proceed
  on_path1 option arg body s = end1 (proceed body (proc_path1 E option arg s))

  -- A successful call of a file system is followed by a change of its cache.
  unfoldable pub after_success : (Vfs E → Option (Vfs E)) → Result ℕ × Vfs E → Option (ℤ × Vfs E)
  after_success after (ok n, s) =
      if n == 0
      then elim (after s) [ none ↦ none | some s' ↦ some (pos 0, s') ]
      else some (pos n, s)
  after_success after (err e, s) = some (neg e, s)

  -- The call of the system, with `ret = -errno` for an error.
  unfoldable pub ask_os : Op World ℕ → Vfs E → Option (ℤ × Vfs E)
  ask_os op s = let (r, s') = call E op s in some (value r, s')

  -- The body that the handlers share: the operation of the file system that is responsible, or
  -- EOPNOTSUPP where it has none; or the system's call on the canonical path.
  unfoldable pub delegate :
      (FsEntry World → Option (CString → FsOp World ℕ))
      → (after : ℕ → CString → Vfs E → Option (Vfs E)) → (CString → Op World ℕ)
      → Resolved World
      → Vfs E
      → Option (ℤ × Vfs E)
  unfolding after_success ask_os
  delegate fs_op after os_op r s = elim r.place [
    | none ↦ ask_os (os_op r.canon_path) s
    | some p ↦ elim (fs_op p.fsp.entry) [
      | none ↦ some (neg eopnotsupp, s)
      | some op ↦ after_success (after p.number r.canon_path) (call_fs E (op p.rel_path) s)
    ]
  ]

  -- No change of the cache
  abbrev pub nothing : ℕ → CString → Vfs E → Option (Vfs E)
  nothing i path s = some s

  abbrev pub adds : ℕ → CString → Vfs E → Option (Vfs E)
  adds i path s = some (add_entry E i path s)

  -- change_file_size(fsp, canon_path1, length)
  unfoldable pub resizes : (length : ℕ) → ℕ → CString → Vfs E → Option (Vfs E)
  resizes length i path s = some (record s {
    caches =
        update s.caches i
          (change_file_size full_name_hash (s.caches i) path length (os.time s.world));
  })

  unfoldable pub okfs_unlink : Option CString → Vfs E → Option (Vfs E)
  unfolding on_path1 delegate
  okfs_unlink arg =
      on_path1 (not read_last_link) arg (delegate (λ e. e.unlink) (remove_entry E) os.unlink)

  unfoldable pub okfs_rmdir : Option CString → Vfs E → Option (Vfs E)
  unfolding on_path1 delegate
  okfs_rmdir arg = on_path1 read_last_link arg (delegate (λ e. e.rmdir) (remove_entry E) os.rmdir)

  -- The operation with further arguments, if there is one.
  abbrev pub with_args {ℓ} :
      {A : Type ℓ} → Option (CString → A) → (A → FsOp World ℕ) → Option (CString → FsOp World ℕ)
  with_args none f = none
  with_args (some op) f = some (λ path. f (op path))

  unfoldable pub okfs_mkdir : Option CString → (mode : ℕ) → Vfs E → Option (Vfs E)
  unfolding on_path1 delegate
  okfs_mkdir arg mode =
      on_path1 read_last_link arg
        (delegate (λ e. with_args e.mkdir (λ f. f mode)) adds (λ path. os.mkdir path mode))

  unfoldable pub okfs_access : Option CString → (mode : ℕ) → Vfs E → Option (Vfs E)
  unfolding on_path1 delegate
  okfs_access arg mode =
      on_path1 read_last_link arg
        (delegate (λ e. with_args e.access (λ f. f mode)) nothing (λ path. os.access path mode))

  unfoldable pub okfs_chmod : Option CString → (mode : ℕ) → Vfs E → Option (Vfs E)
  unfolding on_path1 delegate
  okfs_chmod arg mode =
      on_path1 read_last_link arg
        (delegate (λ e. with_args e.chmod (λ f. f mode)) nothing (λ path. os.chmod path mode))

  unfoldable pub okfs_truncate : Option CString → (length : ℕ) → Vfs E → Option (Vfs E)
  unfolding on_path1 delegate resizes
  okfs_truncate arg length = on_path1 read_last_link arg (
      delegate (λ e. with_args e.truncate (λ f. f length)) (resizes length)
        (λ path. os.truncate path length))

  -- okfs_dochown, of okfs_lchown (opt is !READ_LAST_LINK) and okfs_chown (READ_LAST_LINK)
  unfoldable pub okfs_dochown :
      (opt : Bool) → Option CString → (owner group : ℕ) → Vfs E → Option (Vfs E)
  unfolding on_path1 delegate
  okfs_dochown opt arg owner group = on_path1 opt arg (
      delegate (λ e. with_args e.lchown (λ f. f owner group)) nothing
        (λ path. os.lchown path owner group))

  -- The times that the process points at, null for a null pointer
  unfoldable pub times_at : (arg2 : ℕ) → Vfs E → Option Buffer
  times_at arg2 s =
      if arg2 == 0 then none else some (memget ptrace (λ i. 0) 0 s.mem arg2 E.sizeof_utimbuf)

  unfoldable pub okfs_utime : Option CString → (arg2 : ℕ) → Vfs E → Option (Vfs E)
  unfolding on_path1 delegate times_at
  okfs_utime arg arg2 = on_path1 read_last_link arg (λ r s.
      let bufp = times_at arg2 s in
      delegate (λ e. with_args e.utime (λ f. f bufp)) nothing (λ path. os.utime path bufp) r s)

  -- mknod and acct are left to the system, and not supported elsewhere.
  unfoldable pub okfs_mknod : Option CString → (mode dev : ℕ) → Vfs E → Option (Vfs E)
  unfolding on_path1 delegate
  okfs_mknod arg mode dev =
      on_path1 read_last_link arg (delegate (λ e. none) nothing (λ path. os.mknod path mode dev))

  unfoldable pub okfs_acct : Option CString → Vfs E → Option (Vfs E)
  unfolding on_path1 delegate
  okfs_acct arg = on_path1 read_last_link arg (delegate (λ e. none) nothing os.acct)
