-- ===== src/Vfs/Ready.antt =====
-- Between two calls a task is ready: its working directory is a canonical path, and nothing is left
-- in fs_resolve.
use okfs.Base.{◌≡◌, refl, ◌∙◌, Bool, true, false, not, Option, none, some, if◌then◌else◌, CString}
use okfs.Base.Int.{ℤ, neg}
use okfs.Stat.{Result, ok, err, exdev}
use okfs.Namei.Form.{IsCanonical}
use okfs.Vfs.{
  Env, Resolved, Vfs, resolve, proc_path1, proc_path2, filled, clean_path1, clean_path2, set_return,
  clean,
}
use okfs.Vfs.Calls.{read_last_link, same_fsp, end1, end2, proceed, on_path1}
use okfs.Vfs.Pairs.{
  same_or_exdev, second_path, first_path, before_lnk_rnm, with_pair, end_both, through,
}
use okfs.Vfs.Keeps.{on_option, FineEnd, Sound, resolve-Sound}

pub record Ready {E : Env} (s : Vfs E) : Type 0 where
  pub cwd : IsCanonical s.cwd
  pub clean1 : s.callfs1 ≡ clean
  pub clean2 : s.callfs2 ≡ clean

abbrev pub ReadyAll : {E : Env} → Option (Vfs E) → Type 0
ReadyAll none = Unit {0}
ReadyAll (some s) = Ready s

module _ (E : Env) where
  open E use {World, os}

  abbrev pub Body : Type 0
  Body = Resolved World → Vfs E → Option (ℤ × Vfs E)

  abbrev pub FineBody : Body → Type 0
  FineBody body = (r : Resolved World) (t : Vfs E) → IsCanonical r.canon_path → FineEnd t (body r t)

  end1-Ready :
      (o : Option (ℤ × Vfs E)) (t : Vfs E)
      → FineEnd t o
      → IsCanonical t.cwd
      → t.callfs2 ≡ clean
      → ReadyAll (end1 E o)
  unfolding end1 FineEnd clean_path1 set_return
  end1-Ready none t f c k = tt
  end1-Ready (some (ret, u)) t f c k = record {
    cwd = f.cwd c;
    clean1 = refl;
    clean2 = f.callfs2 ∙ k;
  }

  end2-Ready :
      (o : Option (ℤ × Vfs E)) (t : Vfs E)
      → FineEnd t o
      → IsCanonical t.cwd
      → t.callfs1 ≡ clean
      → ReadyAll (end2 E o)
  unfolding end2 FineEnd clean_path2 set_return
  end2-Ready none t f c k = tt
  end2-Ready (some (ret, u)) t f c k = record {
    cwd = f.cwd c;
    clean1 = f.callfs1 ∙ k;
    clean2 = refl;
  }

  pub on_path1-Ready :
      (option : Bool) (arg : Option CString) (body : Body)
      → FineBody body
      → (s : Vfs E) → Ready s
      → ReadyAll (on_path1 E option arg body s)
  unfolding on_path1 proc_path1 proceed FineEnd end1 clean_path1 set_return Sound
  on_path1-Ready option arg body f s h = go (resolve E option arg s) (resolve-Sound E option arg s)
    where
      go :
          (o : Option (Result (Resolved World) × Vfs E))
          → Sound E s o
          → ReadyAll (
              end1 E (
                proceed E body (elim o [
                  | none ↦ none
                  | some (r, s') ↦ some (r, record s' { callfs1 = filled E arg r })
                ])))
      go none k = tt
      go (some (err e, t)) k = record {
        cwd = k.cwd h.cwd;
        clean1 = refl;
        clean2 = k.callfs2 ∙ h.clean2;
      }
      go (some (ok r, t)) k =
          let t' = record t { callfs1 = filled E arg (ok r) } in
          end1-Ready (body r t') t' (f r t' (k.1 h.cwd)) (k.0.cwd h.cwd) (k.0.callfs2 ∙ h.clean2)

  pub on_path2-Ready :
      (arg : Option CString) (body : Body)
      → FineBody body
      → (s : Vfs E) → Ready s
      → ReadyAll (end2 E (proceed E body (proc_path2 E (not read_last_link) arg s)))
  unfolding proc_path2 proceed FineEnd end2 clean_path2 set_return Sound
  on_path2-Ready arg body f s h =
      go (resolve E (not read_last_link) arg s) (resolve-Sound E (not read_last_link) arg s)
    where
      go :
          (o : Option (Result (Resolved World) × Vfs E))
          → Sound E s o
          → ReadyAll (
              end2 E (
                proceed E body (elim o [
                  | none ↦ none
                  | some (r, s') ↦ some (r, record s' { callfs2 = filled E arg r })
                ])))
      go none k = tt
      go (some (err e, t)) k = record {
        cwd = k.cwd h.cwd;
        clean1 = k.callfs1 ∙ h.clean1;
        clean2 = refl;
      }
      go (some (ok r, t)) k =
          let t' = record t { callfs2 = filled E arg (ok r) } in
          end2-Ready (body r t') t' (f r t' (k.1 h.cwd)) (k.0.cwd h.cwd) (k.0.callfs1 ∙ h.clean1)

  -- What okfs_before_lnk_rnm leaves: a ready state, or one that the handler works on.
  abbrev pub Passed : Option (Bool × Vfs E) → Type 0
  Passed none = Unit {0}
  Passed (some (true, t)) = IsCanonical t.cwd
  Passed (some (false, t)) = Ready t

  second_path-Passed :
      (r1 : Resolved World) (arg2 : Option CString) (t : Vfs E)
      → IsCanonical t.cwd
      → Passed (second_path E r1 (proc_path2 E (not read_last_link) arg2 t))
  unfolding second_path proc_path2 same_or_exdev clean_path1 clean_path2 set_return Sound
  second_path-Passed r1 arg2 t c =
      go (resolve E (not read_last_link) arg2 t) (resolve-Sound E (not read_last_link) arg2 t)
    where
      decide :
          (b : Bool) (u : Vfs E)
          → IsCanonical u.cwd
          → Passed (
              some (
                if b
                then (true, u)
                else (false, set_return (neg exdev) (clean_path2 E (clean_path1 E u)))))
      decide true u d = d
      decide false u d = record { cwd = d; clean1 = refl; clean2 = refl }

      go :
          (o : Option (Result (Resolved World) × Vfs E))
          → Sound E t o
          → Passed (
              second_path E r1 (elim o [
                | none ↦ none
                | some (r, s') ↦ some (r, record s' { callfs2 = filled E arg2 r })
              ]))
      go none k = tt
      go (some (err e, u)) k = record { cwd = k.cwd c; clean1 = refl; clean2 = refl }
      go (some (ok r2, u)) k =
          decide (same_fsp r1.place r2.place) (record u { callfs2 = filled E arg2 (ok r2) })
            (k.0.cwd c)

  before_lnk_rnm-Passed :
      (arg1 arg2 : Option CString) (s : Vfs E) → Ready s → Passed (before_lnk_rnm E arg1 arg2 s)
  unfolding before_lnk_rnm first_path proc_path1 clean_path1 set_return Sound
  before_lnk_rnm-Passed arg1 arg2 s h =
      go (resolve E (not read_last_link) arg1 s) (resolve-Sound E (not read_last_link) arg1 s)
    where
      go :
          (o : Option (Result (Resolved World) × Vfs E))
          → Sound E s o
          → Passed (
              first_path E arg2 (elim o [
                | none ↦ none
                | some (r, s') ↦ some (r, record s' { callfs1 = filled E arg1 r })
              ]))
      go none k = tt
      go (some (err e, t)) k = record {
        cwd = k.cwd h.cwd;
        clean1 = refl;
        clean2 = k.callfs2 ∙ h.clean2;
      }
      go (some (ok r1, t)) k =
          second_path-Passed r1 arg2 (record t { callfs1 = filled E arg1 (ok r1) }) (k.0.cwd h.cwd)

  abbrev pub FinePair : (Resolved World → Resolved World → Vfs E → Option (ℤ × Vfs E)) → Type 0
  FinePair body = (r1 r2 : Resolved World) (t : Vfs E) → FineEnd t (body r1 r2 t)

  end_both-Ready :
      (o : Option (ℤ × Vfs E)) (t : Vfs E)
      → FineEnd t o
      → IsCanonical t.cwd
      → ReadyAll (end_both E o)
  unfolding end_both FineEnd clean_path1 clean_path2 set_return
  end_both-Ready none t f c = tt
  end_both-Ready (some (ret, u)) t f c = record { cwd = f.cwd c; clean1 = refl; clean2 = refl }

  pub pair-Ready :
      (body : Resolved World → Resolved World → Vfs E → Option (ℤ × Vfs E))
      → FinePair body
      → (t : Vfs E) → IsCanonical t.cwd
      → ReadyAll (end_both E (with_pair E body t))
  unfolding with_pair FineEnd
  pair-Ready body f t c =
      end_both-Ready (with_pair E body t) t
        (on_option (FineEnd t) t.callfs1.resolved _ _ tt
          (λ r1. on_option (FineEnd t) t.callfs2.resolved _ _ tt (λ r2. f r1 r2 t)))
        c

  pub through-Ready :
      (handler : Vfs E → Option (Vfs E))
      → ((t : Vfs E) → IsCanonical t.cwd → ReadyAll (handler t))
      → (arg1 arg2 : Option CString) (s : Vfs E) → Ready s
      → ReadyAll (through E handler (before_lnk_rnm E arg1 arg2 s))
  unfolding through
  through-Ready handler f arg1 arg2 s h =
      go (before_lnk_rnm E arg1 arg2 s) (before_lnk_rnm-Passed arg1 arg2 s h)
    where
      go : (o : Option (Bool × Vfs E)) → Passed o → ReadyAll (through E handler o)
      go none p = tt
      go (some (true, t)) c = f t c
      go (some (false, t)) r = r
