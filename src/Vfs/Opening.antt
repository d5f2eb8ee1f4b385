-- ===== src/Vfs/Opening.antt =====
-- okfs_do_open of vfs_open.c: a file of a mounted file system is opened.
use okfs.Base.{
  ℕ, ◌-◌, ◌/◌, ◌%◌, Bool, true, false, not, ◌&&◌, ◌||◌, Option, none, some, ◌==◌, if◌then◌else◌,
  CString,
}
use okfs.Base.Int.{ℤ, pos, neg}
use okfs.Stat.{Stat, Result, ok, err, eexist, eopnotsupp}
use okfs.Dcache.{find_inode, add_inode, update}
use okfs.Vfs.{Env, Place, Vfs, call_fs, FsOp}
use okfs.Vfs.Entries.{add_entry}

-- The flags of open(): O_WRONLY, O_RDWR, O_CREAT, O_EXCL, O_TRUNC
abbrev pub o_wronly : ℕ → Bool
o_wronly flags = flags % 2 == 1

abbrev pub o_rdwr : ℕ → Bool
o_rdwr flags = flags / 2 % 2 == 1

abbrev pub o_creat : ℕ → Bool
o_creat flags = flags / 64 % 2 == 1

abbrev pub o_excl : ℕ → Bool
o_excl flags = flags / 128 % 2 == 1

abbrev pub o_trunc : ℕ → Bool
o_trunc flags = flags / 512 % 2 == 1

-- flags &= ~O_CREAT where the file exists
abbrev pub drop_creat : (fexist : Bool) → ℕ → ℕ
drop_creat fexist flags = if o_creat flags && fexist then flags - 64 else flags

-- flags &= ~O_TRUNC
abbrev pub drop_trunc : ℕ → ℕ
drop_trunc flags = if o_trunc flags then flags - 512 else flags

-- What is known of the file before it is opened: whether it exists, and its inode in the cache
pub record Look (E : Env) : Type 0 where
  pub fexist : Bool
  pub ip : Option ℕ
  pub vfs : Vfs E

module _ (E : Env) where
  open E use {World, full_name_hash}

  -- ip = cache_add_inode(fsp, canon_path1, canon_path1_len, &buf, NULL)
  abbrev pub adds_inode : ℕ → CString → Stat → Vfs E → Look E
  adds_inode i path buf v =
      let r = add_inode full_name_hash (v.caches i) path buf none in
      record { fexist = true; ip = some r.0; vfs = record v { caches = update v.caches i r.1 } }

  unfoldable pub take_lstat : ℕ → CString → Result Stat × Vfs E → Look E
  take_lstat i path (ok buf, v) = adds_inode i path buf v
  take_lstat i path (err e, v) = record { fexist = false; ip = none; vfs = v }

  -- The cache is asked for the file, and then the file system.
  unfoldable pub look : ℕ → CString → FsOp World Stat → Vfs E → Look E
  unfolding take_lstat call_fs
  look i path lstat v = elim (find_inode full_name_hash (v.caches i) path) [
    | some p ↦ record { fexist = true; ip = some p; vfs = v }
    | none ↦ take_lstat i path (call_fs E lstat v)
  ]

  -- A file that exists is cut to nothing, if it is opened for writing; what truncate says is dropped.
  unfoldable pub cut : (flags : ℕ) → FsOp World ℕ → Look E → Vfs E
  unfolding call_fs
  cut flags truncate l =
      if o_trunc flags && (l.fexist && (o_rdwr flags || o_wronly flags))
      then (call_fs E truncate l.vfs).1
      else l.vfs

  -- cache_add_entry, for a file that is new
  unfoldable pub enter_new : (fresh : Bool) → ℕ → CString → Vfs E → Vfs E
  enter_new fresh i path v = if fresh then add_entry E i path v else v

  unfoldable pub learn_new :
      (fresh : Bool) → ℕ → CString → (fd : ℕ) → Result Stat × Vfs E → Option (ℤ × Vfs E)
  unfolding enter_new
  learn_new fresh i path fd (ok buf, v) =
      some (pos fd, enter_new fresh i path (adds_inode i path buf v).vfs)
  learn_new fresh i path fd (err e, v) = none

  -- What follows the call of the file system: its inode is taken into the cache, and the name into the
  -- list of its directory. `none`: lstat fails, and what is put into the cache was never written.
  unfoldable pub opened :
      (fresh : Bool)
      → ℕ
      → CString
      → FsOp World Stat
      → Option ℕ
      → Result ℕ × Vfs E
      → Option (ℤ × Vfs E)
  unfolding learn_new enter_new call_fs
  opened fresh i path lstat ip (err e, v) = some (neg e, v)
  opened fresh i path lstat (some p) (ok fd, v) = some (pos fd, enter_new fresh i path v)
  opened fresh i path lstat none (ok fd, v) = learn_new fresh i path fd (call_fs E lstat v)

  -- okfs_do_open behind the look at the file
  unfoldable pub open_with :
      (fs_open : ℕ → FsOp World ℕ)
      → (lstat : FsOp World Stat) → (truncate : FsOp World ℕ) → ℕ
      → CString
      → (flags : ℕ) → Look E
      → Option (ℤ × Vfs E)
  unfolding cut opened call_fs
  open_with fs_open lstat truncate i path flags l =
      let flags1 = drop_creat l.fexist flags in
      let flags' = drop_trunc flags1 in
      if o_creat flags && (o_excl flags && l.fexist)
      then some (neg eexist, l.vfs)
      else opened (not l.fexist && o_creat flags') i path lstat l.ip
          (call_fs E (fs_open flags') (cut flags1 truncate l))

  -- okfs_do_open, on the place of the canonical path; `fs_open` is the operation open, none where the
  -- file system has none.
  unfoldable pub okfs_do_open :
      (fs_open : Option (CString → (flags mode : ℕ) → FsOp World ℕ))
      → Place World
      → (canon_path : CString) → (flags mode : ℕ) → Vfs E
      → Option (ℤ × Vfs E)
  unfolding look open_with
  okfs_do_open fs_open p canon_path flags mode v = elim fs_open [
    | none ↦ some (neg eopnotsupp, v)
    | some op ↦ elim p.fsp.entry.truncate [
      | none ↦ some (neg eopnotsupp, v)
      | some truncate ↦ elim p.fsp.entry.chmod [
        | none ↦ some (neg eopnotsupp, v)
        | some chmod ↦ elim p.fsp.entry.lstat [
          | none ↦ some (neg eopnotsupp, v)
          | some lstat ↦
              open_with (λ f. op p.rel_path f mode) (lstat p.rel_path) (truncate p.rel_path 0)
                p.number canon_path flags (look p.number canon_path (lstat p.rel_path) v)
        ]
      ]
    ]
  ]
