-- ===== src/Tests/Switch.antt =====
-- A system with one file system mounted at "/m", in which every file is a directory.
use okfs.Base.{
  ℕ, arith, ◌+◌, ◌≡◌, refl, true, false, none, some, [], ◌∷◌, ◌++◌, ◌==◌, if◌then◌else◌, CString,
  str_eq, length,
}
use okfs.Base.Int.{pos}
use okfs.Stat.{ok, err}
use okfs.Dcache.{
  Cache, name_hash, find_inode, find_path, add_inode, find_dentry, path_remove, update,
}
use okfs.Namei.{canonical}
use okfs.Vfs.Pairs.{okfs_chdir, before_lnk_rnm}
use okfs.Vfs.Calls.{same_fsp}
use okfs.Vfs.SameFs.{Decided, before_lnk_rnm-Decided}
use okfs.Vfs.{
  resolve, proc_path2, Callfs, proc_path1, clean_path1, set_return, Op, on_world, FsEntry,
  Superblock, Os, Env, Vfs, locate, dolstat, clean,
}
use okfs.Vfs.Entries.{remove_entry}
use okfs.Vfs.Stats.{Layout64}
use okfs.Vfs.Table.{chdir, stat, handle, handle_all}
use okfs.Vfs.Ready.{Ready}
use okfs.Vfs.Invariant.{handle_all-Ready}
use okfs.Vfs.Ends.{handle_ends}
use okfs.Vfs.Forgets.{remove_entry-forgets}
use okfs.Dcache.Remove.{Distinct}
use okfs.Vfs.Mounts.{Responsible, locate-first}
use okfs.Tests.Processes.{ram, greeting}
use okfs.Tests.Paths.{stat_of_mode, slash, slash_a, root_IsCanonical}

-- Every call of the system and of the file system succeeds, and is counted.
abbrev pub succeeds : Op ℕ ℕ
succeeds w = (ok 0, w + 1)

abbrev pub says {ℓ} : {A : Type ℓ} → A → Op ℕ A
says a w = (ok a, w + 1)

abbrev pub m_entry : FsEntry ℕ
m_entry = record {
  lstat = some (λ p. on_world (says (stat_of_mode 16384)));
  readlink = none;
  link = none;
  unlink = some (λ p. on_world succeeds);
  access = none;
  rename = none;
  rmdir = none;
  mkdir = none;
  symlink = none;
  utime = none;
  chmod = none;
  truncate = none;
  statfs = none;
  lchown = none;
  read = some (λ f fd n. on_world (says (b'h' ∷ b'i' ∷ [])));
  write = none;
  lseek = some (λ f fd offset origin. on_world succeeds);
}

abbrev pub m : CString
m = b'/' ∷ b'm' ∷ []

abbrev pub mounted : Superblock ℕ
mounted = record { mnt_point = m; entry = m_entry }

abbrev pub system : Os ℕ
system = record {
  lstat = λ p. says (stat_of_mode 16384);
  stat = λ p. says (stat_of_mode 16384);
  readlink = λ p n. says slash;
  link = λ p q. succeeds;
  unlink = λ p. succeeds;
  access = λ p n. succeeds;
  rename = λ p q. succeeds;
  rmdir = λ p. succeeds;
  mkdir = λ p n. succeeds;
  symlink = λ p q. succeeds;
  utime = λ p t. succeeds;
  chmod = λ p n. succeeds;
  truncate = λ p n. succeeds;
  statfs = λ p. says (λ i. 0);
  lchown = λ p o g. succeeds;
  mknod = λ p o g. succeeds;
  acct = λ p. succeeds;
  time = λ w. w;
}

abbrev pub env : Env
env = record {
  World = ℕ;
  os = system;
  ptrace = ram;
  full_name_hash = length;
  stat_bytes = λ st i. 0;
  sizeof_stat = 64;
  sizeof_statfs = 64;
  sizeof_utimbuf = 8;
  path_max = 64;
  fuel = 2000;
  mounted_fs = mounted ∷ [];
}

abbrev layout : Layout64 ℕ
layout = record {
  stat64_bytes = λ st i. 0;
  sizeof_stat64 = 96;
  stat64 = λ p w. (err 2, w);
  lstat64 = λ p w. (err 2, w);
}

abbrev pub no_cache : Cache
no_cache = record { inodes = []; ipath_cache = λ h. []; inr_cache = λ h. []; dcache = λ h. [] }

abbrev pub start : Vfs env
start = record {
  world = 0;
  caches = λ i. no_cache;
  cwd = slash;
  mem = greeting;
  ret = pos 0;
  callfs1 = clean;
  callfs2 = clean;
}

-- "/m/a" and "/a"
abbrev pub m_a : CString
m_a = m ++ slash_a

locate-first_example : Responsible env m_a (locate env m_a)
locate-first_example = locate-first env m_a

-- okfs_dolstat of "/m/a", which asks the file system
abbrev asked : Vfs env
asked = (dolstat env 0 mounted m_a slash_a start).1

asked_ok : dolstat env 0 mounted m_a slash_a start ≡ (ok (stat_of_mode 16384), asked)
unfolding dolstat find_inode
asked_ok = refl

-- Without "/m/a", which is alone in its bucket
abbrev removed : Vfs env
removed = record asked {
  caches =
      update asked.caches 0
        (record (asked.caches 0) { ipath_cache = update (asked.caches 0).ipath_cache 4 [] });
}

removed_ok : remove_entry env 0 m_a asked ≡ some removed
unfolding remove_entry dolstat path_remove find_inode add_inode find_dentry
removed_ok = refl

Distinct-bucket : Distinct ((asked.caches 0).ipath_cache (name_hash length m_a))
unfolding dolstat find_path find_inode add_inode
Distinct-bucket = (refl, tt)

remove_entry-forgets_example :
    ((q : CString)
      → find_inode length (removed.caches 0) q
        ≡ (if str_eq m_a q then none else find_inode length (asked.caches 0) q))
    × ((j : ℕ) → (j == 0) ≡ false → removed.caches j ≡ asked.caches j)
remove_entry-forgets_example =
    remove_entry-forgets env 0 m_a asked removed Distinct-bucket removed_ok

-- chdir("a") asks the system twice for "/a": once for the path, once for the directory.
abbrev moved : Vfs env
moved = record start { world = 2; cwd = slash_a }

chdir_a : handle_all env layout (chdir (some (b'a' ∷ [])) ∷ []) start ≡ some moved
unfolding handle_all okfs_chdir proc_path1 canonical clean_path1 set_return
chdir_a = refl

handle_all-Ready_example : Ready moved
handle_all-Ready_example =
    handle_all-Ready env layout (chdir (some (b'a' ∷ [])) ∷ []) start moved
      (record { cwd = root_IsCanonical; clean1 = refl; clean2 = refl }) chdir_a

-- rename("/m", "/m") is let pass to the file system, with both paths resolved.
abbrev filled_m : Callfs ℕ
filled_m = record {
  path = some m;
  resolved = some (record {
    canon_path = m;
    place = some (record { number = 0; fsp = mounted; rel_path = [] });
  });
}

abbrev both_m : Vfs env
both_m = record start { callfs1 = filled_m; callfs2 = filled_m }

passed_m : before_lnk_rnm env (some m) (some m) start ≡ some (true, both_m)
unfolding before_lnk_rnm proc_path1 proc_path2 resolve canonical same_fsp
passed_m = refl

before_lnk_rnm-Decided_example : Decided env (some (true, both_m))
before_lnk_rnm-Decided_example =
    before_lnk_rnm-Decided env (some m) (some m) start both_m true passed_m

-- stat("/m/../a")
abbrev long_way : CString
long_way = m ++ (b'/' ∷ b'.' ∷ b'.' ∷ slash_a)

handle_ends_example :
    (s' : Vfs env) × (handle env layout (stat (some long_way) 100) start ≡ some s')
handle_ends_example =
    handle_ends env layout (stat (some long_way) 100) start 7 refl (omega arith) (omega arith)
      (omega arith)
