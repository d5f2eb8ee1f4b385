-- ===== src/Vfs/Total.antt =====
-- The parts of the handlers that come to their end.
use okfs.Base.{
  ℕ, ◌+◌, ◌*◌, ◌<◌, ◌≡◌, refl, Bool, true, Option, none, some, is_some, ◌==◌, CString, length,
}
use okfs.Base.Int.{ℤ, pos}
use okfs.Stat.{Result, ok, err}
use okfs.Namei.Bounds.{canonical_ends}
use okfs.Vfs.{
  Op, FsEntry, Env, Resolved, Vfs, arglstat, argreadlink, canonicalize, resolve, proc_path1, filled,
  locate, call_fs, FsOp,
}
use okfs.Vfs.Calls.{end1, proceed, on_path1, after_success, ask_os, delegate}
use okfs.Vfs.Keeps.{on_option, on_test}

abbrev pub Ends : {A : Type 0} → Option A → Type 0
Ends o = is_some o ≡ true

pub some_of : {A : Type 0} (o : Option A) → Ends o → (a : A) × (o ≡ some a)
some_of none h = absurd (cc)
some_of (some a) h = (a, refl)

abbrev pub text_length : Option CString → ℕ
text_length none = 0
text_length (some path) = length path

module _ (E : Env) where
  open E use {World, os, path_max, fuel}

  -- There is room for the working directory, and fuel for a path.
  abbrev pub Enough : Vfs E → ℕ → Type 0
  Enough s n = (1 < path_max) × (length s.cwd < path_max) × (n + 20 * path_max < fuel)

  pub resolve-Ends :
      (option : Bool) (arg : Option CString) (s : Vfs E)
      → Enough s (text_length arg)
      → Ends (resolve E option arg s)
  unfolding resolve canonicalize
  resolve-Ends option none s (large, short, fueled) = refl
  resolve-Ends option (some path) s (large, short, fueled) =
      let (r, e) =
        canonical_ends (arglstat E) (argreadlink E path_max) path_max option large fuel (some s.cwd)
          (some path) s short fueled in
      go (canonicalize E option path s) (r, e)
    where
      go :
          (o : Option (Result CString × Vfs E))
          → (r : Result CString × Vfs E) × (o ≡ some r)
          → Ends {A = Result (Resolved World) × Vfs E} (elim o [
            | none ↦ none
            | some (err e, s') ↦ some (err e, s')
            | some (ok canon_path, s') ↦ some (ok (locate E canon_path), s')
          ])
      go none (r, e) = absurd (cc)
      go (some (err e', t)) r = refl
      go (some (ok p, t)) r = refl

  abbrev pub Total : (Resolved World → Vfs E → Option (ℤ × Vfs E)) → Type 0
  Total body = (r : Resolved World) (t : Vfs E) → Ends (body r t)

  end1-Ends : (o : Option (ℤ × Vfs E)) → Ends o → Ends (end1 E o)
  unfolding end1
  end1-Ends none h = h
  end1-Ends (some (ret, t)) h = refl

  pub on_path1-Ends :
      (option : Bool) (arg : Option CString) (body : Resolved World → Vfs E → Option (ℤ × Vfs E))
      → Total body
      → (s : Vfs E) → Enough s (text_length arg)
      → Ends (on_path1 E option arg body s)
  unfolding on_path1 proc_path1 proceed
  on_path1-Ends option arg body total s n =
      end1-Ends _ (go (resolve E option arg s) (resolve-Ends option arg s n))
    where
      go :
          (o : Option (Result (Resolved World) × Vfs E))
          → Ends o
          → Ends (
              proceed E body (elim o [
                | none ↦ none
                | some (r, s') ↦ some (r, record s' { callfs1 = filled E arg r })
              ]))
      go none h = h
      go (some (err e, t)) h = refl
      go (some (ok r, t)) h = total r (record t { callfs1 = filled E arg (ok r) })

  after_success-Ends :
      (after : Vfs E → Option (Vfs E))
      → ((t : Vfs E) → Ends (after t))
      → (x : Result ℕ × Vfs E) → Ends (after_success E after x)
  unfolding after_success
  after_success-Ends after total (err e, t) = refl
  after_success-Ends after total (ok n, t) = on_test Ends (n == 0) _ _ (go (after t) (total t)) refl
    where
      go :
          (o : Option (Vfs E))
          → Ends o
          → Ends {A = ℤ × Vfs E} (elim o [ none ↦ none | some s' ↦ some (pos 0, s') ])
      go none h = absurd (cc)
      go (some t') h = refl

  pub delegates_end :
      (fs_op : FsEntry World → Option (CString → FsOp World ℕ))
      (after : ℕ → CString → Vfs E → Option (Vfs E)) (os_op : CString → Op World ℕ)
      → ((i : ℕ) (p : CString) (t : Vfs E) → Ends (after i p t))
      → Total (delegate E fs_op after os_op)
  unfolding delegate ask_os
  delegates_end fs_op after os_op total r t = on_option Ends r.place _ _ refl (λ p.
      on_option Ends (fs_op p.fsp.entry) _ _ refl (λ op.
        after_success-Ends (after p.number r.canon_path) (total p.number r.canon_path)
          (call_fs E (op p.rel_path) t)))
