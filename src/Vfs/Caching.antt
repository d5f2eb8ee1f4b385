-- ===== src/Vfs/Caching.antt =====
-- What the cache of a file system makes of the calls: a file's state is asked for once, a removed
-- name is forgotten, and a new size is seen under every name.
use mathlib.Core.Path.{subst}
use mathlib.Core.Option.{some-injective}
use okfs.Base.{
  ℕ, ◌≡◌, refl, ap, sym, ◌∙◌, inl, inr, true, Option, none, some, List, ==-refl, CString, str_eq,
  str_eq_refl, get_elem?, arith, Bool-cases, Option-cases,
}
use okfs.Stat.{Stat, Result, ok, err}
use okfs.Dcache.{Inode, Cache, has_nr, find_inode, add_inode, update}
use okfs.Dcache.Lookup.{find_inode-Added, has_nr-Added, old-Added, Added-add_inode}
use okfs.Vfs.{Shared, FsOp, Superblock, Env, Vfs, shared, call_fs, learn, cached, dolstat}

module _ (E : Env) where
  open E use {World, full_name_hash}

  -- Every path of the cache has an inode.
  abbrev pub Linked : Cache → Type 0
  Linked c =
      (path : CString) (p : ℕ)
      → find_inode full_name_hash c path ≡ some p
      → (i : Inode) × (get_elem? c.inodes p ≡ some i)

  has_nr-Inode :
      (inodes : List Inode) (dev ino p : ℕ)
      → has_nr inodes dev ino p ≡ true
      → (i : Inode) × (get_elem? inodes p ≡ some i)
        × (i.statbuf.st_dev ≡ dev)
        × (i.statbuf.st_ino ≡ ino)
  unfolding has_nr
  has_nr-Inode inodes dev ino p h = elim (Option-cases (get_elem? inodes p)) [
    | inl none_there ↦ absurd (ground (arith, none_there))
    | inr (i, e) ↦ (i, e, ground (arith, e, h), ground (arith, e, h))
  ]

  cached-found :
      (c : Cache) (path : CString) (p : ℕ) (i : Inode)
      → find_inode full_name_hash c path ≡ some p
      → get_elem? c.inodes p ≡ some i
      → cached E c path ≡ some i.statbuf
  unfolding cached
  cached-found c path p i f g = ground (arith, f, g)

  -- The cache after cache_add_inode
  pub record Grown (c : Cache) (path : CString) (st : Stat) : Type 0 where
    pub linked : Linked c
    pub known : Stat
    pub is_cached : cached E c path ≡ some known
    pub same_dev : known.st_dev ≡ st.st_dev
    pub same_ino : known.st_ino ≡ st.st_ino

  pub add_inode-Grown :
      (c : Cache) (path : CString) (st : Stat) (link : Option CString)
      → Linked c
      → Grown (add_inode full_name_hash c path st link).1 path st
  add_inode-Grown c path st link l =
      let r = add_inode full_name_hash c path st link in
      let a = Added-add_inode full_name_hash c path st link in
      let (i, e, d, n) =
        has_nr-Inode r.1.inodes st.st_dev st.st_ino r.0 (has_nr-Added full_name_hash c path st a) in
      let found = find_inode-Added full_name_hash c path path st a ∙ rw (str_eq_refl path) refl in
      record {
        linked = λ q p f. elim (Bool-cases (str_eq path q)) [
          | inl same ↦ (
            i,
            ap (get_elem? r.1.inodes) (
                  some-injective _ _
                    (sym f ∙ find_inode-Added full_name_hash c path q st a ∙ rw same refl))
                ∙ e,
          )
          | inr other ↦
              let (j, g) =
                l q p (sym (find_inode-Added full_name_hash c path q st a ∙ rw other refl) ∙ f) in
              (j, old-Added full_name_hash c path st p j a g)
        ];
        known = i.statbuf;
        is_cached = cached-found r.1 path r.0 i found e;
        same_dev = d;
        same_ino = n;
      }

  -- What is asked of the lstat of a file system, which may fill the cache of its number i itself: it
  -- keeps the paths of that cache linked, and where it puts the path itself into the cache, the entry and
  -- its answer have the same device and inode number.
  pub record Truthful (i : ℕ) (full : CString) (lstat : FsOp World Stat) : Type 0 where
    pub keeps : (t : Shared World) → Linked (t.caches i) → Linked ((lstat t).1.caches i)
    pub agrees :
        (t t' : Shared World) (buf known : Stat)
        → Linked (t.caches i)
        → cached E (t.caches i) full ≡ none
        → lstat t ≡ (ok buf, t')
        → cached E (t'.caches i) full ≡ some known
        → (known.st_dev ≡ buf.st_dev) × (known.st_ino ≡ buf.st_ino)

  -- What a successful okfs_dolstat leaves
  abbrev Learnt : ℕ → CString → Result Stat × Vfs E → Type 0
  Learnt i full (err e, t) = Unit {0}
  Learnt i full (ok buf, t) = Grown (t.caches i) full buf

  -- The second look into the cache: lstat may have put the path there, or not.
  learn-Learnt :
      (i : ℕ) (full : CString) (r : Result Stat) (t : Vfs E)
      → Linked (t.caches i)
      → ((buf known : Stat)
          → r ≡ ok buf
          → cached E (t.caches i) full ≡ some known
          → (known.st_dev ≡ buf.st_dev) × (known.st_ino ≡ buf.st_ino))
      → Learnt i full (learn E i full (r, t))
  unfolding learn
  learn-Learnt i full (err e) t l agrees = tt
  learn-Learnt i full (ok buf) t l agrees = go (find_inode full_name_hash (t.caches i) full) refl
    where
      go :
          (o : Option ℕ)
          → find_inode full_name_hash (t.caches i) full ≡ o
          → Learnt i full (elim o [
            | some p ↦ (ok buf, t)
            | none ↦ (
              ok buf,
              record t {
                caches = update t.caches i (add_inode full_name_hash (t.caches i) full buf none).1;
              },
            )
          ])
      go (some p) e =
          let (inode, g) = l full p e in
          let hit = cached-found (t.caches i) full p inode e g in
          let same = agrees buf inode.statbuf refl hit in
          record {
            linked = l;
            known = inode.statbuf;
            is_cached = hit;
            same_dev = same.0;
            same_ino = same.1;
          }
      go none e = rw (==-refl i) (add_inode-Grown (t.caches i) full buf none l)

  asked-Learnt :
      (i : ℕ) (full : CString) (lstat : FsOp World Stat) (s : Vfs E)
      → Truthful i full lstat
      → Linked (s.caches i)
      → cached E (s.caches i) full ≡ none
      → Learnt i full (learn E i full (call_fs E lstat s))
  unfolding call_fs
  asked-Learnt i full lstat s h l miss =
      let (r, t) = lstat (shared E s) in
      learn-Learnt i full r (record s { world = t.world; caches = t.caches })
        (h.keeps (shared E s) l)
        (λ buf known answer hit.
          h.agrees (shared E s) t buf known l miss (ap (λ (x : Result Stat). (x, t)) answer) hit)

  call-Learnt :
      (i : ℕ) (fsp : Superblock World) (full p : CString) (s : Vfs E)
      (lstat : CString → FsOp World Stat)
      → fsp.entry.lstat ≡ some lstat
      → Truthful i full (lstat p)
      → Linked (s.caches i)
      → Learnt i full (dolstat E i fsp full p s)
  unfolding dolstat
  call-Learnt i fsp full p s lstat has_lstat h l =
      rw (has_lstat, dolstat) (from_cache (cached E (s.caches i) full) refl)
    where
      from_cache :
          (o : Option Stat)
          → cached E (s.caches i) full ≡ o
          → Learnt i full
              (elim o [ some buf ↦ (ok buf, s) | none ↦ learn E i full (call_fs E (lstat p) s) ])
      from_cache none e = asked-Learnt i full (lstat p) s h l e
      from_cache (some buf) e = record {
        linked = l;
        known = buf;
        is_cached = e;
        same_dev = refl;
        same_ino = refl;
      }

  -- okfs_dolstat of a path, on a file system whose lstat may fill the cache itself, keeps its paths
  -- linked to inodes and agrees with it on device and inode number: when it succeeds once, it succeeds
  -- again at once. The state then comes from the cache, the file system is not asked, nothing
  -- changes, and the device and inode number are those of the first answer. It keeps every path of
  -- the cache linked to an inode, which is what is required of the cache before.
  pub dolstat-again :
      (i : ℕ) (fsp : Superblock World) (full p : CString) (s s' : Vfs E) (buf : Stat)
      (lstat : CString → FsOp World Stat)
      → fsp.entry.lstat ≡ some lstat
      → Truthful i full (lstat p)
      → Linked (s.caches i)
      → dolstat E i fsp full p s ≡ (ok buf, s')
      → Linked (s'.caches i)
        × ((known : Stat) × (dolstat E i fsp full p s' ≡ (ok known, s'))
            × (known.st_dev ≡ buf.st_dev)
            × (known.st_ino ≡ buf.st_ino))
  unfolding dolstat
  dolstat-again i fsp full p s s' buf lstat has_lstat h l e =
      let g = subst (Learnt i full) e (call-Learnt i fsp full p s lstat has_lstat h l) in
      (g.linked, (g.known, rw (has_lstat, dolstat, g.is_cached) refl, g.same_dev, g.same_ino))
