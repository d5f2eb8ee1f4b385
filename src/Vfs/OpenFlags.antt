-- ===== src/Vfs/OpenFlags.antt =====
-- What okfs_do_open (vfs_open.c) does with the flags of open().
use mathlib.Core.Path.{subst}
use okfs.Base.{
  ◌∙◌, none, ℕ, ◌/◌, ◌%◌, ◌≡◌, refl, ap, sym, ◌⊎◌, inl, inr, Bool, true, false, not, ◌&&◌, ◌||◌,
  Option, some, if◌then◌else◌, CString, Bool-cases, arith,
}
use okfs.Base.Int.{ℤ, neg}
use okfs.Stat.{Result, Stat, eexist}
use okfs.Vfs.{FsOp, Shared, Env, Place, Vfs, shared, call_fs}
use okfs.Vfs.Opening.{
  o_wronly, o_rdwr, o_creat, o_excl, o_trunc, drop_creat, drop_trunc, Look, look, cut, opened,
  open_with, okfs_do_open,
}
use okfs.Vfs.Opened.{left, Looked, Ended, Shape, exists, misses, look-Shape, opened-old, opened-new}

-- The flags f are those of the process, but for O_CREAT, which is set for a new file only, and
-- O_TRUNC, which is not.
pub record Seen (fexist : Bool) (flags f : ℕ) : Type 0 where
  pub trunc : o_trunc f ≡ false
  pub creat : o_creat f ≡ (o_creat flags && not fexist)
  pub low : f % 64 ≡ flags % 64
  pub middle : f / 128 % 4 ≡ flags / 128 % 4
  pub high : f / 1024 ≡ flags / 1024

seen : (fexist : Bool) (flags : ℕ) → Seen fexist flags (drop_trunc (drop_creat fexist flags))
seen fexist flags = record {
  trunc = ground arith;
  creat = ground arith;
  low = ground arith;
  middle = ground arith;
  high = ground arith;
}

cut_test :
    (b : Bool) (flags : ℕ)
    → (o_trunc (drop_creat b flags)
        && (b && (o_rdwr (drop_creat b flags) || o_wronly (drop_creat b flags))))
      ≡ (o_trunc flags && (b && (o_rdwr flags || o_wronly flags)))
cut_test b flags = ground arith

fresh_test :
    (b : Bool) (flags : ℕ)
    → (not b && o_creat (drop_trunc (drop_creat b flags))) ≡ (not b && o_creat flags)
fresh_test b flags = ground arith

module _ (E : Env) where
  open E use {World, full_name_hash}

  -- O_TRUNC cuts a file that exists and is opened for writing.
  abbrev pub cuts : (fexist : Bool) → ℕ → Bool
  cuts fexist flags = o_trunc flags && (fexist && (o_rdwr flags || o_wronly flags))

  abbrev pub Opens :
      (CString → (flags mode : ℕ) → FsOp World ℕ)
      → (CString → ℕ → FsOp World ℕ)
      → (CString → FsOp World Stat)
      → Place World
      → CString
      → (flags mode : ℕ) → Vfs E
      → Option (ℤ × Vfs E)
      → Type 0
  Opens op truncate lstat p path flags mode v result =
      (fexist : Bool) × (u : Shared World) × Looked E p.number path (lstat p.rel_path) (shared E v)
        fexist u
      × (((o_creat flags && (o_excl flags && fexist)) ≡ true)
            × (result ≡ some (neg eexist, left E u v))
          ⊎ ((o_creat flags && (o_excl flags && fexist)) ≡ false)
            × (f : ℕ) × Seen fexist flags f
            × Ended E p.number path (lstat p.rel_path) fexist flags v
                (op p.rel_path f mode
                  (if cuts fexist flags then (truncate p.rel_path 0 u).1 else u))
                result)

  left-if :
      (b : Bool) (t u : Shared World) (v : Vfs E)
      → (if b then left E t v else left E u v) ≡ left E (if b then t else u) v
  left-if true t u v = refl
  left-if false t u v = refl

  cut-left :
      (b : Bool) (ip : Option ℕ) (flags : ℕ) (truncate : FsOp World ℕ) (u : Shared World)
      (v : Vfs E)
      → cut E (drop_creat b flags) truncate (record { fexist = b; ip = ip; vfs = left E u v })
        ≡ left E (if cuts b flags then (truncate u).1 else u) v
  unfolding cut call_fs
  cut-left b ip flags truncate u v =
      ap (λ c. if c then left E (truncate u).1 v else left E u v) (cut_test b flags)
      ∙ left-if (cuts b flags) (truncate u).1 u v

  module _ (op : CString → (flags mode : ℕ) → FsOp World ℕ) (truncate : CString → ℕ → FsOp World ℕ)
      (lstat : CString → FsOp World Stat) (p : Place World) (path : CString) (flags mode : ℕ) where
    abbrev run : Look E → Option (ℤ × Vfs E)
    run l =
        open_with E (λ f. op p.rel_path f mode) (lstat p.rel_path) (truncate p.rel_path 0) p.number
          path flags l

    -- The answer of the file system, as `opened` takes it
    abbrev answered : Bool → Shared World → Vfs E → Result ℕ × Vfs E
    answered b u v =
        call_fs E (op p.rel_path (drop_trunc (drop_creat b flags)) mode)
          (left E (if cuts b flags then (truncate p.rel_path 0 u).1 else u) v)

    run-opened :
        (b : Bool) (ip : Option ℕ) (u : Shared World) (v : Vfs E)
        → (o_creat flags && (o_excl flags && b)) ≡ false
        → run (record { fexist = b; ip = ip; vfs = left E u v })
          ≡ opened E (not b && o_creat flags) p.number path (lstat p.rel_path) ip (answered b u v)
    unfolding open_with
    run-opened b ip u v e =
        rw (e, open_with)
          (ap
              (λ c. opened E c p.number path (lstat p.rel_path) ip (
                call_fs E (op p.rel_path (drop_trunc (drop_creat b flags)) mode) (
                  cut E (drop_creat b flags) (truncate p.rel_path 0)
                    (record { fexist = b; ip = ip; vfs = left E u v }))))
              (fresh_test b flags)
            ∙ ap
                (λ w.
                  opened E (not b && o_creat flags) p.number path (lstat p.rel_path) ip
                    (call_fs E (op p.rel_path (drop_trunc (drop_creat b flags)) mode) w))
                (cut-left b ip flags (truncate p.rel_path 0) u v))

    run-refused :
        (b : Bool) (ip : Option ℕ) (u : Shared World) (v : Vfs E)
        → (o_creat flags && (o_excl flags && b)) ≡ true
        → run (record { fexist = b; ip = ip; vfs = left E u v }) ≡ some (neg eexist, left E u v)
    unfolding open_with
    run-refused b ip u v e = rw (e, open_with) refl

    run-Opens :
        (v : Vfs E) (l : Look E)
        → Shape E p.number path (lstat p.rel_path) v l
        → Opens op truncate lstat p path flags mode v (run l)
    unfolding call_fs
    run-Opens v _ (exists q u h) = elim (Bool-cases (o_creat flags && (o_excl flags && true))) [
      | inl e ↦ (true, u, h, inl (e, run-refused true (some q) u v e))
      | inr e ↦ (
        true,
        u,
        h,
        inr (
          e,
          drop_trunc (drop_creat true flags),
          seen true flags,
          subst
              (λ r.
                Ended E p.number path (lstat p.rel_path) true flags v
                  (op p.rel_path (drop_trunc (drop_creat true flags)) mode
                    (if cuts true flags then (truncate p.rel_path 0 u).1 else u))
                  r)
              (sym (run-opened true (some q) u v e))
              (opened-old E p.number path (lstat p.rel_path) flags q v (
                op p.rel_path (drop_trunc (drop_creat true flags)) mode
                  (if cuts true flags then (truncate p.rel_path 0 u).1 else u))),
        ),
      )
    ]
    run-Opens v _ (misses u h) = elim (Bool-cases (o_creat flags && (o_excl flags && false))) [
      | inl e ↦ (false, u, h, inl (e, run-refused false none u v e))
      | inr e ↦ (
        false,
        u,
        h,
        inr (
          e,
          drop_trunc (drop_creat false flags),
          seen false flags,
          subst
              (λ r.
                Ended E p.number path (lstat p.rel_path) false flags v
                  (op p.rel_path (drop_trunc (drop_creat false flags)) mode
                    (if cuts false flags then (truncate p.rel_path 0 u).1 else u))
                  r)
              (sym (run-opened false none u v e))
              (opened-new E p.number path (lstat p.rel_path) flags v (
                op p.rel_path (drop_trunc (drop_creat false flags)) mode
                  (if cuts false flags then (truncate p.rel_path 0 u).1 else u))),
        ),
      )
    ]

    -- okfs_do_open on a file system that has open, truncate, chmod and lstat, for every flags and mode
    -- and every answer. The file exists if the cache has its path or else lstat finds it, and one that
    -- lstat finds is put into the cache. O_CREAT with O_EXCL of a file that exists gives EEXIST, and
    -- nothing else has happened. Else a file that exists is cut to nothing if O_TRUNC stands with
    -- O_WRONLY or O_RDWR (what truncate says is dropped, and a size in the cache is not changed), and
    -- the file is opened once, with the flags of the process but for O_TRUNC, and for O_CREAT where it
    -- exists. An error and the descriptor of a file that existed are what the process gets, and
    -- nothing more changes. For a new one lstat is asked; its path is then found in the cache with the
    -- device and inode number of the answer, every other path as before, and with O_CREAT its name is
    -- entered in its directory by cache_add_entry; where that lstat fails, there is no result.
    pub okfs_do_open-Opens :
        (chmod : CString → ℕ → FsOp World ℕ) (v : Vfs E)
        → p.fsp.entry.truncate ≡ some truncate
        → p.fsp.entry.chmod ≡ some chmod
        → p.fsp.entry.lstat ≡ some lstat
        → Opens op truncate lstat p path flags mode v (okfs_do_open E (some op) p path flags mode v)
    unfolding okfs_do_open
    okfs_do_open-Opens chmod v t c s =
        subst (Opens op truncate lstat p path flags mode v) (sym (rw (t, okfs_do_open, c, s) refl))
          (run-Opens v (look E p.number path (lstat p.rel_path) v)
            (look-Shape E p.number path (lstat p.rel_path) v))
