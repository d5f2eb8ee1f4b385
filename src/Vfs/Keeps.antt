-- ===== src/Vfs/Keeps.antt =====
-- What the parts of the handlers keep: the halves of fs_resolve that they do not fill, and that the
-- working directory is a canonical path.
use mathlib.Core.Path.{subst}
use okfs.Base.{
  ℕ, ◌≡◌, refl, sym, ◌∙◌, Bool, true, false, Option, none, some, List, if◌then◌else◌, CString,
}
use okfs.Base.Int.{ℤ}
use okfs.Stat.{Stat, Result, ok, err}
use okfs.Dcache.{Dirent, Cache, find_inode, find_dentry, path_remove}
use okfs.Namei.Form.{IsCanonical}
use okfs.Namei.Walk.{canonical-IsCanonical}
use okfs.Namei.Keeps.{canonical-keeps}
use okfs.Vfs.{
  Op, FsOp, call_fs, Superblock, Env, Resolved, Vfs, find_mount, call, learn, cached, dolstat,
  arglstat, argreadlink, canonicalize, locate, resolve,
}
use okfs.Vfs.Entries.{add_entry_to, add_entry, remove_entry, remove_dirent, dir_name, base_name}

-- A property of what a test or a null pointer decides between.
pub on_option :
    {A B : Type 0} (P : B → Type 0) (o : Option A) (b : B) (f : A → B)
    → P b
    → ((a : A) → P (f a))
    → P (elim o [ none ↦ b | some a ↦ f a ])
on_option P none b f h k = h
on_option P (some a) b f h k = k a

pub on_test :
    {B : Type 0} (P : B → Type 0) (t : Bool) (x y : B) → P x → P y → P (if t then x else y)
on_test P true x y h k = h
on_test P false x y h k = k

-- `s'` has the same fs_resolve, and its working directory is canonical if that of `s` is.
pub record Fine {E : Env} (s s' : Vfs E) : Type 0 where
  pub callfs1 : s'.callfs1 ≡ s.callfs1
  pub callfs2 : s'.callfs2 ≡ s.callfs2
  pub cwd : IsCanonical s.cwd → IsCanonical s'.cwd

pub Fine-refl : {E : Env} (s : Vfs E) → Fine s s
Fine-refl s = record { callfs1 = refl; callfs2 = refl; cwd = λ h. h }

pub Fine-trans : {E : Env} {s t u : Vfs E} → Fine s t → Fine t u → Fine s u
Fine-trans f g = record {
  callfs1 = g.callfs1 ∙ f.callfs1;
  callfs2 = g.callfs2 ∙ f.callfs2;
  cwd = λ h. g.cwd (f.cwd h);
}

-- The end of a body, if it has one
unfoldable pub FineEnd : {E : Env} → Vfs E → Option (ℤ × Vfs E) → Type 0
FineEnd s none = Unit {0}
FineEnd s (some (ret, s')) = Fine s s'

unfoldable pub FineState : {E : Env} → Vfs E → Option (Vfs E) → Type 0
FineState s none = Unit {0}
FineState s (some s') = Fine s s'

module _ (E : Env) where
  open E use {World, os, full_name_hash, mounted_fs, fuel, path_max}

  pub call-Fine : {A : Type 0} (op : Op World A) (s : Vfs E) → Fine s (call E op s).1
  unfolding call
  call-Fine op s = record { callfs1 = refl; callfs2 = refl; cwd = λ h. h }

  pub call_fs-Fine : {A : Type 0} (op : FsOp World A) (s : Vfs E) → Fine s (call_fs E op s).1
  unfolding call_fs
  call_fs-Fine op s = record { callfs1 = refl; callfs2 = refl; cwd = λ h. h }

  learn-Fine :
      (i : ℕ) (p : CString) (s : Vfs E) (x : Result Stat × Vfs E)
      → Fine s x.1
      → Fine s (learn E i p x).1
  unfolding learn
  learn-Fine i p s (err e, t) h = h
  learn-Fine i p s (ok buf, t) h =
      on_option (λ (y : Result Stat × Vfs E). Fine s y.1) (find_inode full_name_hash (t.caches i) p)
        _ _ (record { callfs1 = h.callfs1; callfs2 = h.callfs2; cwd = h.cwd }) (λ a. h)

  pub dolstat-Fine :
      (i : ℕ) (fsp : Superblock World) (full p : CString) (s : Vfs E)
      → Fine s (dolstat E i fsp full p s).1
  unfolding dolstat
  dolstat-Fine i fsp full p s =
      on_option (λ (y : Result Stat × Vfs E). Fine s y.1) fsp.entry.lstat _ _ (Fine-refl s)
        (λ lstat.
          on_option (λ (y : Result Stat × Vfs E). Fine s y.1) (cached E (s.caches i) full) _ _
            (learn-Fine i full s _ (call_fs-Fine (lstat p) s)) (λ buf. Fine-refl s))

  pub arglstat-Fine : (p : CString) (s : Vfs E) → Fine s (arglstat E p s).1
  unfolding arglstat
  arglstat-Fine p s =
      on_option (λ (y : Result Stat × Vfs E). Fine s y.1) (find_mount 0 mounted_fs p) _ _
        (call-Fine (os.lstat p) s) (λ found. dolstat-Fine found.0 found.1 p _ s)

  argreadlink-Fine : (n : ℕ) (p : CString) (s : Vfs E) → Fine s (argreadlink E n p s).1
  unfolding argreadlink
  argreadlink-Fine n p s =
      on_option (λ (y : Result CString × Vfs E). Fine s y.1) (find_mount 0 mounted_fs p) _ _
        (call-Fine (os.readlink p n) s)
        (λ found.
          on_option (λ (y : Result CString × Vfs E). Fine s y.1) found.1.entry.readlink _ _
            (Fine-refl s) (λ readlink. call_fs-Fine (readlink _ n) s))

  pub canonicalize-Fine :
      (b : Bool) (p : CString) (s : Vfs E) (r : Result CString) (s' : Vfs E)
      → canonicalize E b p s ≡ some (r, s')
      → Fine s s'
  unfolding canonicalize
  canonicalize-Fine b p s r s' e =
      canonical-keeps (arglstat E) (argreadlink E path_max) path_max b (Fine s)
        (λ q t h. Fine-trans h (arglstat-Fine q t))
        (λ q t h. Fine-trans h (argreadlink-Fine path_max q t)) fuel (some s.cwd) (some p) s r s'
        (Fine-refl s) e

  -- What proc_path1 and proc_path2 find, and what they leave of the state: the canonical name is
  -- canonical.
  unfoldable pub Sound : Vfs E → Option (Result (Resolved World) × Vfs E) → Type 0
  Sound s none = Unit {0}
  Sound s (some (err e, s')) = Fine s s'
  Sound s (some (ok r, s')) = Fine s s' × (IsCanonical s.cwd → IsCanonical r.canon_path)

  locate-path : (p : CString) → (locate E p).canon_path ≡ p
  unfolding locate
  locate-path p =
      on_option (λ (r : Resolved World). r.canon_path ≡ p) (find_mount 0 mounted_fs p) _ _ refl
        (λ found. refl)

  pub resolve-Sound : (b : Bool) (arg : Option CString) (s : Vfs E) → Sound s (resolve E b arg s)
  unfolding resolve Sound canonicalize
  resolve-Sound b none s = Fine-refl s
  resolve-Sound b (some p) s = go (canonicalize E b p s) refl
    where
      go :
          (o : Option (Result CString × Vfs E))
          → canonicalize E b p s ≡ o
          → Sound s (elim o [
            | none ↦ none
            | some (err e, s') ↦ some (err e, s')
            | some (ok canon_path, s') ↦ some (ok (locate E canon_path), s')
          ])
      go none e = tt
      go (some (err n, s')) e = canonicalize-Fine b p s (err n) s' e
      go (some (ok c, s')) e = (
        canonicalize-Fine b p s (ok c) s' e,
        λ h. subst IsCanonical (sym (locate-path c)) (
            canonical-IsCanonical (arglstat E) (argreadlink E path_max) path_max b fuel (some s.cwd)
              (some p) s c s' h e),
      )

  pub add_entry-Fine : (i : ℕ) (p : CString) (s : Vfs E) → Fine s (add_entry E i p s)
  unfolding add_entry add_entry_to
  add_entry-Fine i p s =
      on_option (Fine s) (find_dentry full_name_hash (s.caches i) (dir_name p)) _ _ (Fine-refl s)
        (λ d. added d (arglstat E p s) (arglstat-Fine p s))
    where
      added :
          (d : List Dirent) (x : Result Stat × Vfs E) → Fine s x.1 → Fine s (add_entry_to E i p d x)
      added d (err e, t) h = h
      added d (ok buf, t) h = record { callfs1 = h.callfs1; callfs2 = h.callfs2; cwd = h.cwd }

  pub remove_entry-Fine : (i : ℕ) (p : CString) (s : Vfs E) → FineState s (remove_entry E i p s)
  unfolding remove_entry FineState
  remove_entry-Fine i p s =
      on_option (FineState s) (path_remove full_name_hash (s.caches i) p) _ _ tt (λ c.
        on_option (FineState s) (find_dentry full_name_hash c (dir_name p)) _ _ same
          (λ d. on_option (FineState s) (remove_dirent (base_name p) d) _ _ tt (λ d'. same)))
    where
      same : {caches : ℕ → Cache} → Fine s (record s { caches = caches })
      same = record { callfs1 = refl; callfs2 = refl; cwd = λ h. h }

  -- A state that is left, if one is, has the world of the state before.
  abbrev SameWorld : Vfs E → Option (Vfs E) → Type 0
  SameWorld s none = Unit {0}
  SameWorld s (some s') = s'.world ≡ s.world

  -- cache_remove_entry does not touch the world.
  pub remove_entry-world :
      (i : ℕ) (p : CString) (s s' : Vfs E) → remove_entry E i p s ≡ some s' → s'.world ≡ s.world
  unfolding remove_entry
  remove_entry-world i p s s' e = subst (SameWorld s) e same
    where
      same : SameWorld s (remove_entry E i p s)
      same = on_option (SameWorld s) (path_remove full_name_hash (s.caches i) p) _ _ tt (λ c.
          on_option (SameWorld s) (find_dentry full_name_hash c (dir_name p)) _ _ refl
            (λ d. on_option (SameWorld s) (remove_dirent (base_name p) d) _ _ tt (λ d'. refl)))
