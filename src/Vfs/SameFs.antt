-- ===== src/Vfs/SameFs.antt =====
-- link() and rename() run their handlers only with both paths on one file system.
use mathlib.Core.Path.{subst}
use okfs.Base.{
  ◌≡◌, refl, ap, ◌∙◌, Bool, true, false, not, Option, none, some, if◌then◌else◌, CString,
}
use okfs.Base.Int.{neg}
use okfs.Stat.{Result, ok, err, exdev}
use okfs.Vfs.{
  Env, Resolved, Callfs, Vfs, resolve, proc_path1, proc_path2, filled, clean, clean_path1,
  clean_path2, set_return,
}
use okfs.Vfs.Calls.{read_last_link, same_fsp}
use okfs.Vfs.Pairs.{same_or_exdev, second_path, first_path, before_lnk_rnm}
use okfs.Vfs.Keeps.{Sound, resolve-Sound}

module _ (E : Env) where
  open E use {World}

  -- Both halves of fs_resolve hold a path, and the two are on one file system.
  pub record Together (t : Vfs E) : Type 0 where
    pub r1 : Resolved World
    pub r2 : Resolved World
    pub first : t.callfs1.resolved ≡ some r1
    pub second : t.callfs2.resolved ≡ some r2
    pub same : same_fsp r1.place r2.place ≡ true

  -- The handler runs on such a state; a call that is refused leaves the first half empty.
  abbrev pub Decided : Option (Bool × Vfs E) → Type 0
  Decided none = Unit {0}
  Decided (some (true, t)) = Together t
  Decided (some (false, t)) = t.callfs1 ≡ clean

  second_path-Decided :
      (r1 : Resolved World) (arg2 : Option CString) (t : Vfs E)
      → t.callfs1.resolved ≡ some r1
      → Decided (second_path E r1 (proc_path2 E (not read_last_link) arg2 t))
  unfolding second_path proc_path2 same_or_exdev clean_path1 clean_path2 set_return Sound
  second_path-Decided r1 arg2 t first =
      go (resolve E (not read_last_link) arg2 t) (resolve-Sound E (not read_last_link) arg2 t)
    where
      decide :
          (r2 : Resolved World) (b : Bool)
          → same_fsp r1.place r2.place ≡ b
          → (u : Vfs E) → u.callfs1.resolved ≡ some r1
          → u.callfs2.resolved ≡ some r2
          → Decided (
              some (
                if b
                then (true, u)
                else (false, set_return (neg exdev) (clean_path2 E (clean_path1 E u)))))
      decide r2 true e u f g = record { r1 = r1; r2 = r2; first = f; second = g; same = e }
      decide r2 false e u f g = refl

      go :
          (o : Option (Result (Resolved World) × Vfs E))
          → Sound E t o
          → Decided (
              second_path E r1 (elim o [
                | none ↦ none
                | some (r, s') ↦ some (r, record s' { callfs2 = filled E arg2 r })
              ]))
      go none k = tt
      go (some (err e, u)) k = refl
      go (some (ok r2, u)) k =
          decide r2 (same_fsp r1.place r2.place) refl (record u { callfs2 = filled E arg2 (ok r2) })
            (ap (λ (c : Callfs World). c.resolved) k.0.callfs1 ∙ first) refl

  all-Decided : (arg1 arg2 : Option CString) (s : Vfs E) → Decided (before_lnk_rnm E arg1 arg2 s)
  unfolding before_lnk_rnm first_path proc_path1 clean_path1 set_return
  all-Decided arg1 arg2 s = go (resolve E (not read_last_link) arg1 s)
    where
      go :
          (o : Option (Result (Resolved World) × Vfs E))
          → Decided (
              first_path E arg2 (elim o [
                | none ↦ none
                | some (r, s') ↦ some (r, record s' { callfs1 = filled E arg1 r })
              ]))
      go none = tt
      go (some (err e, t)) = refl
      go (some (ok r1, t)) =
          second_path-Decided r1 arg2 (record t { callfs1 = filled E arg1 (ok r1) }) refl

  -- Where okfs_before_lnk_rnm lets a call pass, both paths are resolved and on one file system, or
  -- both on none: so okfs_link and okfs_rename find what they assert and read no null path. Where it
  -- answers the call itself, nothing of the first path is left.
  pub before_lnk_rnm-Decided :
      (arg1 arg2 : Option CString) (s t : Vfs E) (passed : Bool)
      → before_lnk_rnm E arg1 arg2 s ≡ some (passed, t)
      → Decided (some (passed, t))
  before_lnk_rnm-Decided arg1 arg2 s t passed e = subst Decided e (all-Decided arg1 arg2 s)
