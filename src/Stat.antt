-- ===== src/Stat.antt =====
-- The records that file system calls hand around: `struct stat`, and the numbers of errno.
use okfs.Base.{ℕ, ◌/◌, ◌%◌, Bool, ◌==◌}

-- struct stat, as far as the program reads or copies it
pub record Stat : Type 0 where
  pub st_dev : ℕ
  pub st_rdev : ℕ
  pub st_ino : ℕ
  pub st_mode : ℕ
  pub st_nlink : ℕ
  pub st_uid : ℕ
  pub st_gid : ℕ
  pub st_atime : ℕ
  pub st_mtime : ℕ
  pub st_ctime : ℕ
  pub st_size : ℕ
  pub st_blocks : ℕ
  pub st_blksize : ℕ

-- S_ISDIR and S_ISLNK: the bits of S_IFMT (0170000) are those of S_IFDIR (0040000), S_IFLNK (0120000)
abbrev pub is_dir_mode : ℕ → Bool
is_dir_mode mode = mode / 4096 % 16 == 4

abbrev pub is_link_mode : ℕ → Bool
is_link_mode mode = mode / 4096 % 16 == 10

-- A call of the system either succeeds with a value or fails and leaves its reason in errno.
pub data Result {ℓ} (A : Type ℓ) : Type ℓ where
  ok : A → Result A
  err : ℕ → Result A

-- <errno.h>
abbrev pub eperm : ℕ
eperm = 1

abbrev pub enoent : ℕ
enoent = 2

abbrev pub eio : ℕ
eio = 5

abbrev pub ebadf : ℕ
ebadf = 9

abbrev pub efault : ℕ
efault = 14

abbrev pub eexist : ℕ
eexist = 17

abbrev pub exdev : ℕ
exdev = 18

abbrev pub enotdir : ℕ
enotdir = 20

abbrev pub einval : ℕ
einval = 22

abbrev pub enfile : ℕ
enfile = 23

abbrev pub emfile : ℕ
emfile = 24

abbrev pub erange : ℕ
erange = 34

abbrev pub enametoolong : ℕ
enametoolong = 36

abbrev pub enolck : ℕ
enolck = 37

abbrev pub eloop : ℕ
eloop = 40

abbrev pub eoverflow : ℕ
eoverflow = 75

abbrev pub eopnotsupp : ℕ
eopnotsupp = 95
