-- ===== src/Namei/Keeps.antt =====
-- What the lookups keep of the state, canonical() keeps.
use mathlib.Core.List.{reverse}
use mathlib.Core.Path.{subst}
use okfs.Base.{
  ℕ, zero, suc, ◌+◌, ◌≡◌, inl, inr, Bool-cases, Bool, true, false, not, ◌&&◌, Option, none, some,
  [], ◌∷◌, ◌==◌, ltb, if◌then◌else◌, CString, str_eq, length,
}
use okfs.Stat.{Stat, Result, ok, err, is_link_mode}
use okfs.Namei.{
  skip_slashes, component, behind, dot, dot_dot, empty_path, extend, trim, max_symlinks, Loc, Round,
  done, fail, go, follow_link, looked_up, visit, round, walk, canonical,
}

module _ {S : Type 0} (lstat : CString → S → Result Stat × S)
    (readlink : CString → S → Result CString × S) (path_max : ℕ) (read_last_link : Bool)
    (Q : S → Type 0) (lstat_keeps : (p : CString) (s : S) → Q s → Q (lstat p s).1)
    (readlink_keeps : (p : CString) (s : S) → Q s → Q (readlink p s).1) where
  either : {A : Type 0} (b : Bool) (x y : A × S) → Q x.1 → Q y.1 → Q (if b then x else y).1
  either true x y hx hy = hx
  either false x y hx hy = hy

  follow_link-keeps :
      (l : Loc) (rest : CString) (s : S)
      → Q s
      → Q (follow_link lstat readlink path_max read_last_link l rest s).1
  unfolding follow_link
  follow_link-keeps l rest s h =
      either (ltb max_symlinks (l.num_links + 1)) _ _ h (readlink_keeps _ s h)

  looked_up-keeps :
      (l : Loc) (rest : CString) (r : Result Stat) (s : S)
      → Q s
      → Q (looked_up lstat readlink path_max read_last_link l rest r s).1
  unfolding looked_up
  looked_up-keeps l rest (err e) s h = h
  looked_up-keeps l rest (ok buf) s h =
      either (is_link_mode buf.st_mode) _ _ (follow_link-keeps l rest s h) h

  visit-keeps :
      (l : Loc) (name rest : CString) (s : S)
      → Q s
      → Q (visit lstat readlink path_max read_last_link l name rest s).1
  unfolding visit
  visit-keeps l name rest s h =
      let l' = extend path_max l name rest in
      let path = reverse l'.dest in
      either (not read_last_link && empty_path rest) _ _ h
        (looked_up-keeps l' rest (lstat path s).0 (lstat path s).1 (lstat_keeps path s h))

  round-keeps : (l : Loc) (s : S) → Q s → Q (round lstat readlink path_max read_last_link l s).1
  unfolding round
  round-keeps l s h =
      let name = component (skip_slashes l.end) in
      either (length name == 0) _ _ h (
        either (str_eq name dot) _ _ h (
          either (str_eq name dot_dot) _ _ h
            (visit-keeps l name (behind (skip_slashes l.end)) s h)))

  abbrev Kept : Option (Result CString × S) → Type 0
  Kept none = Unit {0}
  Kept (some (r, s)) = Q s

  walk-keeps :
      (fuel : ℕ) (l : Loc) (s : S)
      → Q s
      → Kept (walk lstat readlink path_max read_last_link fuel l s)
  unfolding walk
  walk-keeps zero l s h = tt
  walk-keeps (suc fuel) l s h =
      go_on (round lstat readlink path_max read_last_link l s) (round-keeps l s h)
        (λ l' s' h'. walk-keeps fuel l' s' h')
    where
      go_on :
          (x : Round × S)
          → Q x.1
          → ((l' : Loc) (s' : S)
              → Q s'
              → Kept (walk lstat readlink path_max read_last_link fuel l' s'))
          → Kept (elim x.0 [
            | done ↦ some (ok (reverse (trim l.dest)), x.1)
            | fail e ↦ some (err e, x.1)
            | go l' ↦ walk lstat readlink path_max read_last_link fuel l' x.1
          ])
      go_on (done, s') h' again = h'
      go_on (fail e, s') h' again = h'
      go_on (go l', s') h' again = again l' s' h'

  canonical-Kept :
      (fuel : ℕ) (cwd name : Option CString) (s : S)
      → Q s
      → Kept (canonical lstat readlink path_max read_last_link fuel cwd name s)
  unfolding canonical
  canonical-Kept fuel cwd none s h = h
  canonical-Kept fuel cwd (some []) s h = h
  canonical-Kept fuel none (some (c ∷ name)) s h = elim (Bool-cases (c == b'/')) [
    | inl e ↦ rw e (walk-keeps fuel _ s h)
    | inr e ↦ rw e h
  ]
  canonical-Kept fuel (some cwd) (some (c ∷ name)) s h = walk-keeps fuel _ s h

  pub canonical-keeps :
      (fuel : ℕ) (cwd name : Option CString) (s : S) (r : Result CString) (s' : S)
      → Q s
      → canonical lstat readlink path_max read_last_link fuel cwd name s ≡ some (r, s')
      → Q s'
  canonical-keeps fuel cwd name s r s' h e = subst Kept e (canonical-Kept fuel cwd name s h)
