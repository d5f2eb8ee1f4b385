-- ===== src/Tests/Reads.antt =====
-- Two descriptors of one open file of the mounted file system.
use okfs.Base.{
  ℕ, zero, suc, ◌+◌, ◌<◌, ◌≤◌, ◌≡◌, ◌⊎◌, refl, true, false, none, some, [], ◌∷◌, ◌==◌,
  if◌then◌else◌, CString, length, arith,
}
use okfs.Base.Int.{pos, negsuc, neg, ◌+ℤ◌}
use okfs.Stat.{eoverflow}
use okfs.Memory.{cstr}
use okfs.Dcache.{Inode}
use okfs.Fd.{OkfsFile, slot, file_at}
use okfs.Vfs.{on_world}
use okfs.Vfs.OpenFiles.{FdVfs, OpenFile, open_file, inode_of, okfs_read, fits}
use okfs.Vfs.FileCalls.{okfs_lseek}
use okfs.Vfs.Reading.{okfs_read-bytes, okfs_lseek-position}
use okfs.Tests.Processes.{ram}
use okfs.Tests.Paths.{stat_of_mode, slash_a}
use okfs.Tests.Switch.{env, start, no_cache, m_a, mounted, says, succeeds}

abbrev long_file : Inode
long_file = record { statbuf = record (stat_of_mode 32768) { st_size = 9 }; symlink = none }

abbrev open_a : OkfsFile
open_a = record {
  path = m_a;
  rel_path = some slash_a;
  ino = some 0;
  fsp = some 0;
  f_pos = pos 4;
  nshared = 2;
}

abbrev reader : FdVfs env
reader = record {
  vfs = record start { caches = λ i. record no_cache { inodes = long_file ∷ [] } };
  fds = record {
    files = λ p. if p == 5 then some open_a else none;
    table = record {
      fd_tab = none ∷ some 5 ∷ some 5 ∷ [];
      close_on_exec = false ∷ false ∷ false ∷ [];
      fsfd = pos 0 ∷ pos 30 ∷ pos 30 ∷ [];
    };
  };
}

abbrev at_5 : OpenFile ℕ
at_5 = record { address = 5; file = open_a; number = 0; fsp = mounted; fsfd = pos 30 }

opened : open_file env reader 1 ≡ some at_5
unfolding open_file
opened = refl

has_inode : inode_of env at_5 reader.vfs ≡ some long_file
unfolding inode_of
has_inode = refl

abbrev hi : CString
hi = b'h' ∷ b'i' ∷ []

bytes_of_hi : (k : ℕ) → cstr hi k < 256
bytes_of_hi zero = omega arith
bytes_of_hi (suc zero) = omega arith
bytes_of_hi (suc (suc k)) = omega arith

okfs_read-bytes_example :
    (s' : FdVfs env) × (okfs_read env 1 100 2 reader ≡ some s')
    × (s'.vfs.ret ≡ pos (length hi))
    × ((k : ℕ) → k < length hi → ram.byte s'.vfs.mem (100 + k) ≡ cstr hi k)
    × ((a : ℕ)
        → (a < 100) ⊎ (100 + length hi ≤ a)
        → ram.byte s'.vfs.mem a ≡ ram.byte reader.vfs.mem a)
    × ((other : ℕ)
        → slot reader.fds.table.fd_tab other ≡ some at_5.address
        → file_at s'.fds other ≡ some (record open_a { f_pos = open_a.f_pos +ℤ pos (length hi) }))
okfs_read-bytes_example =
    okfs_read-bytes env reader 1 100 2 at_5 long_file (λ f fd n. on_world (says hi)) b'h'
      (b'i' ∷ []) (record { world = 1; caches = reader.vfs.caches }) opened refl refl has_inode refl
      refl bytes_of_hi

okfs_lseek-position_example :
    let target = if true then open_a.f_pos +ℤ negsuc 2 else negsuc 2 in
    (s' : FdVfs env) × (okfs_lseek env 1 (negsuc 2) (pos (if true then 1 else 0)) reader ≡ some s')
    × (s'.vfs.ret ≡ (if fits target then target else neg eoverflow))
    × ((other : ℕ)
        → slot reader.fds.table.fd_tab other ≡ some at_5.address
        → file_at s'.fds other ≡ some (record open_a { f_pos = target }))
okfs_lseek-position_example =
    okfs_lseek-position env reader 1 (negsuc 2) true at_5 (λ f fd offset origin. on_world succeeds)
      0 (record { world = 1; caches = reader.vfs.caches }) opened refl refl
