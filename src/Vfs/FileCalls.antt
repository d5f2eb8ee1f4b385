-- ===== src/Vfs/FileCalls.antt =====
-- The other calls on open files: ftruncate, fstatfs, fchmod, fchown, lseek, fstat and fchdir.
use okfs.Base.{ℕ, Option, none, some, ◌==◌, if◌then◌else◌, CString, length}
use okfs.Base.Int.{ℤ, pos, negsuc, neg, ◌+ℤ◌}
use okfs.Stat.{Stat, Result, ok, err, einval, eoverflow, eopnotsupp}
use okfs.Fd.{Fds}
use okfs.Vfs.{FsEntry, Env, Vfs, arglstat, dolstat, set_return, value, call_fs, FsOp}
use okfs.Vfs.Pairs.{give_buffer}
use okfs.Vfs.Stats.{give_stat}
use okfs.Vfs.OpenFiles.{FdVfs, OpenFile, open_file, return, set_file, change_ino, inode_of, fits}

module _ (E : Env) where
  open E use {World, os, ptrace, mounted_fs}

  -- set_slave_return(ret) behind a part that works on the switch alone
  abbrev pub returns : Fds → Option (ℤ × Vfs E) → Option (FdVfs E)
  returns fds none = none
  returns fds (some (ret, v)) = some (record { vfs = set_return ret v; fds = fds })

  -- An operation on the file's path in its file system, or EOPNOTSUPP
  unfoldable pub by_path :
      (fd : ℕ) → (FsEntry World → Option (CString → FsOp World ℕ)) → FdVfs E → Option (FdVfs E)
  unfolding open_file
  by_path fd fs_op s = elim (open_file E s fd) [
    | none ↦ none
    | some o ↦ elim (fs_op o.fsp.entry) [
      | none ↦ return E (neg eopnotsupp) s
      | some op ↦ elim o.file.rel_path [
        | none ↦ none
        | some rel ↦
            let (r, v) = call_fs E (op rel) s.vfs in
            return E (value r) (record { vfs = v; fds = s.fds })
      ]
    ]
  ]

  abbrev pub with_mode {ℓ} :
      {A : Type ℓ} → Option (CString → A) → (A → FsOp World ℕ) → Option (CString → FsOp World ℕ)
  with_mode none f = none
  with_mode (some op) f = some (λ path. f (op path))

  unfoldable pub okfs_fchmod : (fd mode : ℕ) → FdVfs E → Option (FdVfs E)
  unfolding by_path
  okfs_fchmod fd mode = by_path fd (λ e. with_mode e.chmod (λ f. f mode))

  unfoldable pub okfs_fchown : (fd owner group : ℕ) → FdVfs E → Option (FdVfs E)
  unfolding by_path
  okfs_fchown fd owner group = by_path fd (λ e. with_mode e.lchown (λ f. f owner group))

  -- okfs_ftruncate: the size becomes `ret`, which is 0 there.
  unfoldable pub take_truncate : OpenFile World → Fds → Result ℕ × Vfs E → Option (FdVfs E)
  take_truncate o fds (err e, v) = returns fds (some (neg e, v))
  take_truncate o fds (ok n, v) =
      if n == 0
      then elim (change_ino E o (λ i. record i { statbuf = record i.statbuf { st_size = n } }) v) [
        | none ↦ none
        | some v' ↦ returns fds (some (pos n, v'))
      ]
      else returns fds (some (pos n, v))

  unfoldable pub okfs_ftruncate : (fd length : ℕ) → FdVfs E → Option (FdVfs E)
  unfolding open_file take_truncate
  okfs_ftruncate fd length s = elim (open_file E s fd) [
    | none ↦ none
    | some o ↦ elim o.fsp.entry.truncate [
      | none ↦ return E (neg eopnotsupp) s
      | some truncate ↦ elim o.file.rel_path [
        | none ↦ none
        | some rel ↦ take_truncate o s.fds (call_fs E (truncate rel length) s.vfs)
      ]
    ]
  ]

  unfoldable pub okfs_fstatfs : (fd arg2 : ℕ) → FdVfs E → Option (FdVfs E)
  unfolding open_file give_buffer
  okfs_fstatfs fd arg2 s = elim (open_file E s fd) [
    | none ↦ none
    | some o ↦ elim o.fsp.entry.statfs [
      | none ↦ return E (neg eopnotsupp) s
      | some statfs ↦ elim o.file.rel_path [
        | none ↦ none
        | some rel ↦
            returns s.fds (give_buffer E E.sizeof_statfs arg2 (call_fs E (statfs rel) s.vfs))
      ]
    ]
  ]

  unfoldable pub okfs_fstat : (fd arg2 : ℕ) → FdVfs E → Option (FdVfs E)
  unfolding open_file give_stat
  okfs_fstat fd arg2 s = elim (open_file E s fd) [
    | none ↦ none
    | some o ↦ elim o.file.rel_path [
      | none ↦ none
      | some rel ↦ returns s.fds (give_stat E arg2 (dolstat E o.number o.fsp o.file.path rel s.vfs))
    ]
  ]

  -- okfs_lseek behind the file system's own operation: f_pos is set, and the process gets it if it
  -- fits off_t.
  unfoldable pub moved_to : OpenFile World → ℤ → FdVfs E → Option (FdVfs E)
  moved_to o position s =
      let s' = set_file E o.address (record o.file { f_pos = position }) s in
      return E (if fits position then position else neg eoverflow) s'

  -- SEEK_END: the inode takes the size that okfs_arglstat finds, unless that fails.
  unfoldable pub seek_end :
      OpenFile World → (offset : ℤ) → Fds → Result Stat × Vfs E → Option (FdVfs E)
  unfolding moved_to
  seek_end o offset fds (err e, v) = elim (inode_of E o v) [
    | none ↦ none
    | some i ↦ moved_to o (pos i.statbuf.st_size +ℤ offset) (record { vfs = v; fds = fds })
  ]
  seek_end o offset fds (ok buf, v) = elim (change_ino E o (λ i. record i { statbuf = buf }) v) [
    | none ↦ none
    | some v' ↦ moved_to o (pos buf.st_size +ℤ offset) (record { vfs = v'; fds = fds })
  ]

  unfoldable pub seek : OpenFile World → (retval offset origin : ℤ) → FdVfs E → Option (FdVfs E)
  unfolding moved_to seek_end
  seek o retval offset (negsuc n) s = moved_to o o.file.f_pos s
  seek o retval offset (pos n) s =
      if n == 0
      then moved_to o offset s
      else if n == 1
      then moved_to o (o.file.f_pos +ℤ offset) s
      else if n == 2
      then seek_end o offset s.fds (arglstat E o.file.path s.vfs)
      else return E retval s

  unfoldable pub seek_after :
      OpenFile World → (offset origin : ℤ) → Fds → Result ℕ × Vfs E → Option (FdVfs E)
  unfolding seek
  seek_after o offset origin fds (err e, v) = returns fds (some (neg e, v))
  seek_after o offset origin fds (ok n, v) =
      seek o (pos n) offset origin (record { vfs = v; fds = fds })

  unfoldable pub okfs_lseek : (fd : ℕ) → (offset origin : ℤ) → FdVfs E → Option (FdVfs E)
  unfolding open_file seek_after
  okfs_lseek fd offset origin s = elim (open_file E s fd) [
    | none ↦ none
    | some o ↦ elim o.fsp.entry.lseek [
      | none ↦ seek o (neg einval) offset origin s
      | some lseek ↦
          seek_after o offset origin s.fds (call_fs E (lseek o.file o.fsfd offset origin) s.vfs)
    ]
  ]
