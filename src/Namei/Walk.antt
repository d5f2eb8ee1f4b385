-- ===== src/Namei/Walk.antt =====
-- canonical() ends, and what it returns is canonical.
use mathlib.Core.Path.{subst}
use mathlib.Core.List.{reverse, reverse-reverse}
use okfs.Base.{
  ℕ, zero, suc, ◌+◌, ◌≡◌, refl, ap, ◌∙◌, inl, inr, Bool, true, false, not, ◌&&◌, Option, none, some,
  List, [], ◌∷◌, ◌++◌, ◌==◌, ltb, leb, if◌then◌else◌, CString, str_eq, length, Bool-cases,
}
use okfs.Stat.{Stat, Result, ok, err, is_link_mode, enoent}
use okfs.Namei.{
  empty_path, skip_slashes, component, behind, dot, dot_dot, absolute, back, with_slash, trim,
  max_symlinks, Loc, Round, done, fail, go, extend, follow, follow_result, follow_link, looked_up,
  visit, round, walk, canonical,
}
use okfs.Namei.Form.{
  At, IsName, AllNames, IsCanonical, spell, up, At-with_name, At-back, trim-spells,
  component-IsName, render,
}

-- The path under construction spells names.
record Good (d : CString) : Type 0 where
  names : List CString
  are_names : AllNames names
  at : At d names

Good-back : (d : CString) → Good d → Good (back d)
Good-back d g = record {
  names = up g.names;
  are_names = all g.names g.are_names;
  at = At-back d g.names g.are_names g.at;
}
  where
    all : (cs : List CString) → AllNames cs → AllNames (up cs)
    all [] h = tt
    all (c ∷ cs) h = h.1

Good-root : Good (b'/' ∷ [])
unfolding render
Good-root = record { names = []; are_names = tt; at = inl refl }

Good-with_name : (d name : CString) → IsName name → Good d → Good (reverse name ++ with_slash d)
Good-with_name d name n g = record {
  names = name ∷ g.names;
  are_names = (n, g.are_names);
  at = At-with_name d name g.names g.are_names g.at;
}

abbrev Keeps : Round → Type 0
Keeps done = Unit {0}
Keeps (fail e) = Unit {0}
Keeps (go l) = Good l.dest

Keeps-if : (b : Bool) (x y : Round) → Keeps x → Keeps y → Keeps (if b then x else y)
Keeps-if true x y h k = h
Keeps-if false x y h k = k

module _ {S : Type 0} where
  Keeps-if_state :
      (b : Bool) (x y : Round × S)
      → (b ≡ true → Keeps x.0)
      → (b ≡ false → Keeps y.0)
      → Keeps (if b then x else y).0
  Keeps-if_state true x y h k = h refl
  Keeps-if_state false x y h k = k refl

Good-if : (b : Bool) (x y : CString) → Good x → Good y → Good (if b then x else y)
Good-if true x y h k = h
Good-if false x y h k = k

module _ {S : Type 0} (lstat : CString → S → Result Stat × S)
    (readlink : CString → S → Result CString × S) (path_max : ℕ) (read_last_link : Bool) where
  follow-Good :
      (l : Loc) (rest target : CString)
      → Good l.dest
      → Keeps (follow lstat readlink path_max read_last_link l rest target)
  unfolding follow
  follow-Good l rest target g =
      Keeps-if (leb path_max (length target + length rest)) _ _ tt
        (Good-if (absolute target) _ _ Good-root (Good-back l.dest g))

  follow_result-Good :
      (l : Loc) (rest : CString) (r : Result CString)
      → Good l.dest
      → Keeps (follow_result lstat readlink path_max read_last_link l rest r)
  unfolding follow_result
  follow_result-Good l rest (err e) g = tt
  follow_result-Good l rest (ok target) g = follow-Good l rest target g

  follow_link-Good :
      (l : Loc) (rest : CString) (s : S)
      → Good l.dest
      → Keeps (follow_link lstat readlink path_max read_last_link l rest s).0
  unfolding follow_link
  follow_link-Good l rest s g =
      Keeps-if_state (ltb max_symlinks (l.num_links + 1)) _ _ (λ _. tt)
        λ _.
          follow_result-Good (record l { num_links = l.num_links + 1 }) rest
            (readlink (reverse l.dest) s).0 g

  looked_up-Good :
      (l : Loc) (rest : CString) (r : Result Stat) (s : S)
      → Good l.dest
      → Keeps (looked_up lstat readlink path_max read_last_link l rest r s).0
  unfolding looked_up
  looked_up-Good l rest (err e) s g = Keeps-if (e == enoent && empty_path rest) _ _ g tt
  looked_up-Good l rest (ok buf) s g =
      Keeps-if_state (is_link_mode buf.st_mode) _ _ (λ _. follow_link-Good l rest s g) (λ _. g)

  visit-Good :
      (l : Loc) (name rest : CString) (s : S)
      → IsName name
      → Good l.dest
      → Keeps (visit lstat readlink path_max read_last_link l name rest s).0
  unfolding visit extend
  visit-Good l name rest s n g =
      let l' = extend path_max l name rest in
      let g' = Good-with_name l.dest name n g in
      Keeps-if_state (not read_last_link && empty_path rest) _ _ (λ _. g')
        (λ _. let (r, s') = lstat (reverse l'.dest) s in looked_up-Good l' rest r s' g')

  round-Good :
      (l : Loc) (s : S) → Good l.dest → Keeps (round lstat readlink path_max read_last_link l s).0
  unfolding round
  round-Good l s g =
      let start = skip_slashes l.end in
      let name = component start in
      let rest = behind start in
      Keeps-if_state (length name == 0) _ _ (λ _. tt)
        λ a.
          Keeps-if_state (str_eq name dot) _ _ (λ _. g)
            λ b.
              Keeps-if_state (str_eq name dot_dot) _ _ (λ _. Good-back l.dest g)
                λ c. visit-Good l name rest s (component-IsName start a b c) g

  -- What a successful run returns.
  abbrev Returns : Option (Result CString × S) → Type 0
  Returns none = Unit {0}
  Returns (some (err e, s)) = Unit {0}
  Returns (some (ok p, s)) = IsCanonical p

  walk-Returns :
      (fuel : ℕ) (l : Loc) (s : S)
      → Good l.dest
      → Returns (walk lstat readlink path_max read_last_link fuel l s)
  unfolding walk
  walk-Returns zero l s g = tt
  walk-Returns (suc fuel) l s g =
      after (round lstat readlink path_max read_last_link l s) (round-Good l s g)
        (walk-Returns fuel)
    where
      after :
          (r : Round × S)
          → Keeps r.0
          → ((l : Loc) (s : S)
              → Good l.dest
              → Returns (walk lstat readlink path_max read_last_link fuel l s))
          → Returns (
              let (r', s') = r in
              elim r' [
                | done ↦ some (ok (reverse (trim l.dest)), s')
                | fail e ↦ some (err e, s')
                | go l' ↦ walk lstat readlink path_max read_last_link fuel l' s'
              ])
      after (done, s') k ih = record {
        names = g.names;
        are_names = g.are_names;
        spelled = trim-spells l.dest g.names g.are_names g.at;
      }
      after (fail e, s') k ih = tt
      after (go l', s') k ih = ih l' s' k

  -- A working directory that is kept canonical.
  abbrev pub CanonicalCwd : Option CString → Type 0
  CanonicalCwd none = Unit {0}
  CanonicalCwd (some cwd) = IsCanonical cwd

  Good-cwd : (cwd : CString) → IsCanonical cwd → Good (reverse cwd)
  unfolding spell
  Good-cwd cwd c = at c.names c.are_names c.spelled
    where
      at : (cs : List CString) → AllNames cs → cwd ≡ spell cs → Good (reverse cwd)
      at [] n e = rw e Good-root
      at (x ∷ cs) n e = record {
        names = x ∷ cs;
        are_names = n;
        at = inr (ap reverse e ∙ reverse-reverse (render (x ∷ cs)), λ eq. cc);
      }

  canonical-Returns :
      (fuel : ℕ) (cwd name : Option CString) (s : S)
      → CanonicalCwd cwd
      → Returns (canonical lstat readlink path_max read_last_link fuel cwd name s)
  unfolding canonical
  canonical-Returns fuel cwd none s c = tt
  canonical-Returns fuel cwd (some []) s c = tt
  canonical-Returns fuel none (some (x ∷ name)) s c = elim (Bool-cases (x == b'/')) [
    | inl rooted ↦ rw rooted (walk-Returns fuel _ s Good-root)
    | inr relative ↦ rw relative tt
  ]
  canonical-Returns fuel (some cwd) (some (x ∷ name)) s c =
      walk-Returns fuel _ s
        (Good-if (x == b'/') (b'/' ∷ []) (reverse cwd) Good-root (Good-cwd cwd c))

  -- Whatever the file systems answer, a path that canonical() returns has no empty component, no `.`
  -- and no `..`, and no slash at its end unless it is the root, provided that the working directory
  -- is such a path.
  pub canonical-IsCanonical :
      (fuel : ℕ) (cwd name : Option CString) (s : S) (p : CString) (s' : S)
      → CanonicalCwd cwd
      → canonical lstat readlink path_max read_last_link fuel cwd name s ≡ some (ok p, s')
      → IsCanonical p
  canonical-IsCanonical fuel cwd name s p s' c e =
      subst Returns e (canonical-Returns fuel cwd name s c)
