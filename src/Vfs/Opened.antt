-- ===== src/Vfs/Opened.antt =====
-- What okfs_do_open (vfs_open.c) finds out of a file before it is opened, and what it makes of the answer
-- of the file system.
use okfs.Base.{
  none, ==-refl, str_eq, ◌==◌, ℕ, ◌≡◌, refl, Bool, true, false, Option, some, if◌then◌else◌,
  CString,
}
use okfs.Base.Int.{pos, ℤ, neg}
use okfs.Stat.{Result, ok, err, Stat}
use okfs.Vfs.{FsOp, Shared, Env, Vfs, shared, call_fs}
use okfs.Vfs.Entries.{add_entry}
use okfs.Dcache.{find_inode, has_nr, add_inode, update}
use okfs.Dcache.Lookup.{Added-add_inode, find_inode-Added, has_nr-Added}
use okfs.Vfs.Opening.{take_lstat, learn_new, enter_new, o_creat, Look, look, opened}

module _ (E : Env) where
  open E use {World, full_name_hash}

  -- A state after operations of file systems
  abbrev pub left : Shared World → Vfs E → Vfs E
  left t v = record v { world = t.world; caches = t.caches }

  module _ (i : ℕ) (path : CString) (lstat : FsOp World Stat) where
    -- From t to u, the file of a state is put into the cache, and nothing else changes.
    pub record Entered (st : Stat) (t u : Shared World) : Type 0 where
      pub inode : ℕ
      pub world : u.world ≡ t.world
      pub found :
          (q : CString)
          → find_inode full_name_hash (u.caches i) q
            ≡ (if str_eq path q then some inode else find_inode full_name_hash (t.caches i) q)
      pub numbers : has_nr (u.caches i).inodes st.st_dev st.st_ino inode ≡ true
      pub others : (j : ℕ) → (j == i) ≡ false → u.caches j ≡ t.caches j

    -- Whether the file exists, told by the cache, or by lstat where the cache does not have it; a file
    -- that lstat finds is put into the cache.
    pub data Looked (t : Shared World) : (fexist : Bool) → Shared World → Type 0 where
      in_cache : (q : ℕ) → find_inode full_name_hash (t.caches i) path ≡ some q → Looked t true t
      absent :
          (e : ℕ) (u : Shared World)
          → find_inode full_name_hash (t.caches i) path ≡ none
          → lstat t ≡ (err e, u)
          → Looked t false u
      there :
          (buf : Stat) (t' u : Shared World)
          → find_inode full_name_hash (t.caches i) path ≡ none
          → lstat t ≡ (ok buf, t')
          → Entered buf t' u
          → Looked t true u

    -- What becomes of the answer of the file system: an error and the descriptor of a file that
    -- existed are handed on; a new file is asked for by lstat and put into the cache, and with O_CREAT
    -- its name into the list of its directory. Where lstat fails, there is no result.
    pub data Ended (fexist : Bool) (flags : ℕ) (v : Vfs E)
        : Result ℕ × Shared World → Option (ℤ × Vfs E) → Type 0 where
      fails : (e : ℕ) (t : Shared World) → Ended fexist flags v (err e, t) (some (neg e, left t v))
      old :
          (fd : ℕ) (t : Shared World)
          → fexist ≡ true
          → Ended fexist flags v (ok fd, t) (some (pos fd, left t v))
      new :
          (fd : ℕ) (t : Shared World) (buf : Stat) (t' u : Shared World)
          → fexist ≡ false
          → lstat t ≡ (ok buf, t')
          → Entered buf t' u
          → Ended fexist flags v
              (ok fd, t)
              (some (pos fd, if o_creat flags then add_entry E i path (left u v) else left u v))
      lost :
          (fd : ℕ) (t : Shared World) (e : ℕ) (t' : Shared World)
          → fexist ≡ false
          → lstat t ≡ (err e, t')
          → Ended fexist flags v (ok fd, t) none

    abbrev added : Stat → Shared World → Shared World
    added buf t = record t {
      caches = update t.caches i (add_inode full_name_hash (t.caches i) path buf none).1;
    }

    added-Entered : (buf : Stat) (t : Shared World) → Entered buf t (added buf t)
    added-Entered buf t =
        let a = Added-add_inode full_name_hash (t.caches i) path buf none in
        record {
          inode = (add_inode full_name_hash (t.caches i) path buf none).0;
          world = refl;
          found = λ q. rw (==-refl i) (find_inode-Added full_name_hash (t.caches i) path q buf a);
          numbers = rw (==-refl i) (has_nr-Added full_name_hash (t.caches i) path buf a);
          others = λ j h. rw h refl;
        }

    -- What okfs_do_open knows of the file, by its two cases
    pub data Shape (v : Vfs E) : Look E → Type 0 where
      exists :
          (q : ℕ) (u : Shared World)
          → Looked (shared E v) true u
          → Shape v (record { fexist = true; ip = some q; vfs = left u v })
      misses :
          (u : Shared World)
          → Looked (shared E v) false u
          → Shape v (record { fexist = false; ip = none; vfs = left u v })

    pub look-Shape : (v : Vfs E) → Shape v (look E i path lstat v)
    unfolding look take_lstat call_fs
    look-Shape v = cases (find_inode full_name_hash (v.caches i) path) refl
      where
        answer :
            find_inode full_name_hash (v.caches i) path ≡ none
            → (x : Result Stat × Shared World) → lstat (shared E v) ≡ x
            → Shape v (take_lstat E i path (x.0, left x.1 v))
        answer miss (ok buf, t) e =
            exists (add_inode full_name_hash (t.caches i) path buf none).0 (added buf t)
              (there buf t (added buf t) miss e (added-Entered buf t))
        answer miss (err x, t) e = misses t (absent x t miss e)

        cases :
            (o : Option ℕ)
            → find_inode full_name_hash (v.caches i) path ≡ o
            → Shape v (elim o [
              | some p ↦ record { fexist = true; ip = some p; vfs = v }
              | none ↦ take_lstat E i path (call_fs E lstat v)
            ])
        cases (some p) e = exists p (shared E v) (in_cache p e)
        cases none e = answer e (lstat (shared E v)) refl

    pub opened-old :
        (flags q : ℕ) (v : Vfs E) (x : Result ℕ × Shared World)
        → Ended true flags v x (opened E false i path lstat (some q) (x.0, left x.1 v))
    unfolding opened enter_new
    opened-old flags q v (ok fd, t) = old fd t refl
    opened-old flags q v (err e, t) = fails e t

    pub opened-new :
        (flags : ℕ) (v : Vfs E) (x : Result ℕ × Shared World)
        → Ended false flags v x (opened E (o_creat flags) i path lstat none (x.0, left x.1 v))
    unfolding opened learn_new enter_new call_fs
    opened-new flags v (err e, t) = fails e t
    opened-new flags v (ok fd, t) = learnt (lstat t) refl
      where
        learnt :
            (y : Result Stat × Shared World)
            → lstat t ≡ y
            → Ended false flags v
                (ok fd, t)
                (learn_new E (o_creat flags) i path fd (y.0, left y.1 v))
        learnt (ok buf, t') e = new fd t buf t' (added buf t') refl e (added-Entered buf t')
        learnt (err x, t') e = lost fd t x t' refl e
