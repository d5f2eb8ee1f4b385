-- ===== src/Vfs/OpenFiles.antt =====
-- The calls of vfs_fd_calls.c and vfs_stat.c on the open files of a mounted file system. `none` is a
-- run that leaves the code through a null pointer.
use okfs.Base.{
  ℕ, ◌+◌, ◌^◌, Bool, true, false, Option, none, some, ◌==◌, ltb, if◌then◌else◌, CString, length,
  get_elem?,
}
use okfs.Base.Int.{ℤ, pos, negsuc, neg, ◌+ℤ◌, lt_int}
use okfs.Stat.{Result, ok, err, eopnotsupp}
use okfs.Memory.{memset, memget, cstr}
use okfs.Dcache.{Inode, update, change_inode}
use okfs.Fd.{OkfsFile, store, Fds, slot, fsfd_at}
use okfs.Vfs.{Superblock, Env, Vfs, set_return, call_fs, FsOp}

-- The state of a call on a descriptor: that of the switch, and the descriptors of the task.
pub record FdVfs (E : Env) : Type 0 where
  pub vfs : Vfs E
  pub fds : Fds

-- An open file of a mounted file system: its address, the file, its file system by number, and the
-- descriptor that the file system gave.
pub record OpenFile (W : Type 0) : Type 0 where
  pub address : ℕ
  pub file : OkfsFile
  pub number : ℕ
  pub fsp : Superblock W
  pub fsfd : ℤ

-- off_t has 32 bits.
abbrev pub fits : ℤ → Bool
fits (pos n) = ltb n (2 ^ 31)
fits (negsuc n) = ltb n (2 ^ 31)

module _ (E : Env) where
  open E use {World, os, ptrace, mounted_fs}

  -- fd_tab[fd] and fd_tab[fd]->fsp; none where one of them is a null pointer.
  unfoldable pub open_file : FdVfs E → ℕ → Option (OpenFile World)
  open_file s fd = elim (slot s.fds.table.fd_tab fd) [
    | none ↦ none
    | some p ↦ elim (s.fds.files p) [
      | none ↦ none
      | some f ↦ elim f.fsp [
        | none ↦ none
        | some i ↦ elim (get_elem? mounted_fs i) [
          | none ↦ none
          | some fsp ↦ some (record {
            address = p;
            file = f;
            number = i;
            fsp = fsp;
            fsfd = fsfd_at s.fds.table.fsfd fd;
          })
        ]
      ]
    ]
  ]

  -- okfs_fd_call: true for dummy_call(), after which the handler runs; else the call is the system's.
  unfoldable pub fd_call : FdVfs E → ℤ → Bool
  unfolding open_file
  fd_call s (negsuc n) = false
  fd_call s (pos fd) = elim (open_file s fd) [ none ↦ false | some o ↦ true ]

  -- okfs_only_os: the call of an open file of a mounted file system is refused.
  unfoldable pub only_os : ℤ → FdVfs E → FdVfs E
  unfolding fd_call
  only_os fd s = if fd_call s fd then record s { vfs = set_return (neg eopnotsupp) s.vfs } else s

  abbrev pub return : ℤ → FdVfs E → Option (FdVfs E)
  return ret s = some (record s { vfs = set_return ret s.vfs })

  -- The file at an address, changed
  abbrev pub set_file : ℕ → OkfsFile → FdVfs E → FdVfs E
  set_file p f s = record s { fds = record s.fds { files = store s.fds.files p (some f) } }

  -- ino->statbuf of an open file
  unfoldable pub inode_of : OpenFile World → Vfs E → Option Inode
  inode_of o v = elim o.file.ino [ none ↦ none | some p ↦ get_elem? (v.caches o.number).inodes p ]

  unfoldable pub change_ino : OpenFile World → (Inode → Inode) → Vfs E → Option (Vfs E)
  change_ino o f v = elim o.file.ino [
    | none ↦ none
    | some p ↦
        some (record v { caches = update v.caches o.number (change_inode f p (v.caches o.number)) })
  ]

  -- What okfs_read does with the answer of the file system: the bytes go to the process, and the
  -- position moves behind them.
  unfoldable pub take_read :
      OpenFile World → (arg2 : ℕ) → Fds → Result CString × Vfs E → Option (FdVfs E)
  take_read o arg2 fds (err e, v) = return (neg e) (record { vfs = v; fds = fds })
  take_read o arg2 fds (ok buf, v) =
      if ltb 0 (length buf)
      then return (pos (length buf)) (
          set_file o.address (record o.file { f_pos = o.file.f_pos +ℤ pos (length buf) })
            (record {
              vfs = record v { mem = memset ptrace v.mem arg2 (cstr buf) (length buf) };
              fds = fds;
            }))
      else return (pos 0) (record { vfs = v; fds = fds })

  -- okfs_read behind the test for the operation: only in front of the end is the file system asked.
  unfoldable pub do_read :
      (OkfsFile → ℤ → ℕ → FsOp World CString)
      → OpenFile World
      → (arg2 count : ℕ) → FdVfs E
      → Option (FdVfs E)
  unfolding inode_of take_read
  do_read read o arg2 count s = if count == 0 then return (pos 0) s else elim (inode_of o s.vfs) [
    | none ↦ none
    | some i ↦
        if lt_int o.file.f_pos (pos i.statbuf.st_size)
        then take_read o arg2 s.fds (call_fs E (read o.file o.fsfd count) s.vfs)
        else return (pos 0) s
  ]

  unfoldable pub okfs_read : (fd arg2 count : ℕ) → FdVfs E → Option (FdVfs E)
  unfolding open_file do_read
  okfs_read fd arg2 count s = elim (open_file s fd) [
    | none ↦ none
    | some o ↦ elim o.fsp.entry.read [
      | none ↦ return (neg eopnotsupp) s
      | some read ↦ do_read read o arg2 count s
    ]
  ]

  -- okfs_write: the position moves, and the file is counted longer by what was written.
  unfoldable pub take_write : OpenFile World → Fds → Result ℕ × Vfs E → Option (FdVfs E)
  unfolding change_ino
  take_write o fds (err e, v) = return (neg e) (record { vfs = v; fds = fds })
  take_write o fds (ok n, v) =
      if n == 0
      then return (pos 0) (record { vfs = v; fds = fds })
      else elim (change_ino o
          (λ i. record i { statbuf = record i.statbuf { st_size = i.statbuf.st_size + n } }) v) [
            | none ↦ none
            | some v' ↦ return (pos n) (
                set_file o.address (record o.file { f_pos = o.file.f_pos +ℤ pos n })
                  (record { vfs = v'; fds = fds }))
          ]

  -- `unset` is what the variable ret holds before it is set, which a count of 0 returns.
  unfoldable pub okfs_write : (unset : ℤ) → (fd arg2 count : ℕ) → FdVfs E → Option (FdVfs E)
  unfolding open_file take_write
  okfs_write unset fd arg2 count s = elim (open_file s fd) [
    | none ↦ none
    | some o ↦ elim o.fsp.entry.write [
      | none ↦ return (neg eopnotsupp) s
      | some write ↦
          if count == 0
          then return unset s
          else take_write o s.fds (
              call_fs E (write o.file o.fsfd (memget ptrace (λ i. 0) 0 s.vfs.mem arg2 count) count)
                s.vfs)
    ]
  ]
