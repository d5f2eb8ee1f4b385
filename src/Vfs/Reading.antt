-- ===== src/Vfs/Reading.antt =====
-- What read() and lseek() do to an open file of a mounted file system, and to its other descriptors.
use okfs.Base.{
  ℕ, ◌+◌, ◌<◌, ◌≤◌, ◌≡◌, ◌⊎◌, refl, Bool, true, false, some, ◌∷◌, ◌==◌, if◌then◌else◌, CString,
  length, arith,
}
use okfs.Base.Int.{ℤ, pos, neg, ◌+ℤ◌, lt_int}
use okfs.Stat.{ok, eoverflow}
use okfs.Memory.{cstr, memset}
use okfs.Memory.Bytes.{IsBytes, memset_exact}
use okfs.Dcache.{Inode}
use okfs.Fd.{OkfsFile, slot, file_at}
use okfs.Vfs.{call_fs, Shared, shared, Env, set_return, FsOp}
use okfs.Vfs.OpenFiles.{
  FdVfs, OpenFile, open_file, set_file, inode_of, take_read, do_read, okfs_read, fits,
}
use okfs.Vfs.FileCalls.{moved_to, seek, seek_after, okfs_lseek}

module _ (E : Env) where
  open E use {World, ptrace}

  -- read() of an open file whose file system has the operation and answers with some bytes, with a
  -- count that is not 0 and a position in front of the end: the process gets the number of bytes and
  -- finds them at the address it gave, nothing else of its memory changes, and every descriptor that
  -- shares the file has its position behind what was read.
  pub okfs_read-bytes :
      (s : FdVfs E) (fd arg2 count : ℕ) (o : OpenFile World) (i : Inode)
      (read : OkfsFile → ℤ → ℕ → FsOp World CString) (c : ℕ) (text : CString) (w : Shared World)
      → open_file E s fd ≡ some o
      → o.fsp.entry.read ≡ some read
      → (count == 0) ≡ false
      → inode_of E o s.vfs ≡ some i
      → lt_int o.file.f_pos (pos i.statbuf.st_size) ≡ true
      → read o.file o.fsfd count (shared E s.vfs) ≡ (ok (c ∷ text), w)
      → IsBytes (cstr (c ∷ text))
      → (s' : FdVfs E) × (okfs_read E fd arg2 count s ≡ some s')
        × (s'.vfs.ret ≡ pos (length (c ∷ text)))
        × ((k : ℕ) → k < length (c ∷ text) → ptrace.byte s'.vfs.mem (arg2 + k) ≡ cstr (c ∷ text) k)
        × ((a : ℕ)
            → (a < arg2) ⊎ (arg2 + length (c ∷ text) ≤ a)
            → ptrace.byte s'.vfs.mem a ≡ ptrace.byte s.vfs.mem a)
        × ((other : ℕ)
            → slot s.fds.table.fd_tab other ≡ some o.address
            → file_at s'.fds other
              ≡ some (record o.file { f_pos = o.file.f_pos +ℤ pos (length (c ∷ text)) }))
  unfolding okfs_read do_read take_read call_fs set_return
  okfs_read-bytes s fd arg2 count o i read c text w opened has_read some_count has_ino in_front says
        bytes =
      let buf = c ∷ text in
      let (inside, outside) = memset_exact ptrace s.vfs.mem arg2 (cstr buf) (length buf) bytes in
      let v = record s.vfs {
        world = w.world;
        caches = w.caches;
        mem = memset ptrace s.vfs.mem arg2 (cstr buf) (length buf);
      } in
      let file = record o.file { f_pos = o.file.f_pos +ℤ pos (length buf) } in
      (
        set_file E o.address file (record { vfs = set_return (pos (length buf)) v; fds = s.fds }),
        ground (arith, opened, has_read, some_count, has_ino, in_front, says),
        refl,
        inside,
        outside,
        λ other e. ground (arith, e),
      )

  -- lseek() from the start (SEEK_SET) or from the position (SEEK_CUR) of an open file whose file system
  -- lets it pass: every descriptor that shares the file has the position that is asked for, and the
  -- process gets it if it fits the 32 bits of off_t, else EOVERFLOW.
  pub okfs_lseek-position :
      (s : FdVfs E) (fd : ℕ) (offset : ℤ) (from_here : Bool) (o : OpenFile World)
      (lseek : OkfsFile → (fsfd offset origin : ℤ) → FsOp World ℕ) (n : ℕ) (w : Shared World)
      → open_file E s fd ≡ some o
      → o.fsp.entry.lseek ≡ some lseek
      → lseek o.file o.fsfd offset (pos (if from_here then 1 else 0)) (shared E s.vfs) ≡ (ok n, w)
      → let target = if from_here then o.file.f_pos +ℤ offset else offset in
        (s' : FdVfs E) × (okfs_lseek E fd offset (pos (if from_here then 1 else 0)) s ≡ some s')
        × (s'.vfs.ret ≡ (if fits target then target else neg eoverflow))
        × ((other : ℕ)
            → slot s.fds.table.fd_tab other ≡ some o.address
            → file_at s'.fds other ≡ some (record o.file { f_pos = target }))
  unfolding okfs_lseek seek_after seek moved_to call_fs set_return
  okfs_lseek-position s fd offset true o lseek n w opened has_lseek says =
      let target = o.file.f_pos +ℤ offset in
      let ret = if fits target then target else neg eoverflow in
      (
        set_file E o.address (record o.file { f_pos = target })
            (record {
              vfs = set_return ret (record s.vfs { world = w.world; caches = w.caches });
              fds = s.fds;
            }),
        ground (arith, opened, has_lseek, says),
        refl,
        λ other e. ground (arith, e),
      )
  okfs_lseek-position s fd offset false o lseek n w opened has_lseek says =
      let ret = if fits offset then offset else neg eoverflow in
      (
        set_file E o.address (record o.file { f_pos = offset })
            (record {
              vfs = set_return ret (record s.vfs { world = w.world; caches = w.caches });
              fds = s.fds;
            }),
        ground (arith, opened, has_lseek, says),
        refl,
        λ other e. ground (arith, e),
      )
