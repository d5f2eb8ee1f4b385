-- ===== src/Namei/Bounds.antt =====
-- canonical() ends, with few links followed, and stays inside its buffer.
use mathlib.Core.Path.{subst}
use mathlib.Core.List.{reverse}
use okfs.Base.{
  ℕ, zero, suc, ◌+◌, ◌*◌, ◌-◌, ◌<◌, ◌≤◌, ◌≡◌, refl, ap, inl, inr, Bool, true, false, not, ◌&&◌,
  Option, none, some, [], ◌∷◌, ◌==◌, ltb, leb, if◌then◌else◌, CString, str_eq, length, arith,
  Bool-cases, length-append,
}
use okfs.Namei.Lengths.{skip_slashes-le, component-behind, back-le, with_slash-le, length-reverse}
use okfs.Stat.{Stat, Result, ok, err, is_link_mode, enoent, einval}
use okfs.Namei.{
  empty_path, skip_slashes, component, behind, dot, dot_dot, with_slash, trim, max_symlinks, Loc,
  Round, done, fail, go, grow, extend, follow, follow_result, follow_link, looked_up, visit, round,
  walk, canonical,
}

-- The text still to be read, and what the links that may still be followed can bring.
abbrev pub measure : ℕ → Loc → ℕ
measure path_max l = length l.end + (max_symlinks - l.num_links) * path_max

-- At most 20 links were followed, and the path, with the NUL behind it, fits its buffer.
pub record Fits (path_max : ℕ) (l : Loc) : Type 0 where
  pub links : l.num_links ≤ max_symlinks
  pub room : length l.dest < l.limit
  pub wide : path_max ≤ l.limit

-- A round that goes on has less to do and fits.
abbrev Falls : (path_max n : ℕ) → Round → Type 0
Falls path_max n done = Unit {0}
Falls path_max n (fail e) = Unit {0}
Falls path_max n (go l) = (measure path_max l < n) × Fits path_max l

one_link_less : (k p : ℕ) → k < 20 → (20 - k) * p ≡ (20 - (k + 1)) * p + p
one_link_less k p h =
    let e : 20 - k ≡ 20 - (k + 1) + 1 = omega arith in omega (arith, ap (λ (t : ℕ). t * p) e)

Falls-if :
    (path_max n : ℕ) (b : Bool) (x y : Round)
    → (b ≡ true → Falls path_max n x)
    → (b ≡ false → Falls path_max n y)
    → Falls path_max n (if b then x else y)
Falls-if path_max n true x y h k = h refl
Falls-if path_max n false x y h k = k refl

module _ {S : Type 0} (path_max n : ℕ) where
  Falls-if_state :
      (b : Bool) (x y : Round × S)
      → (b ≡ true → Falls path_max n x.0)
      → (b ≡ false → Falls path_max n y.0)
      → Falls path_max n (if b then x else y).0
  Falls-if_state true x y h k = h refl
  Falls-if_state false x y h k = k refl

module _ (path_max : ℕ) where
  extend-Fits :
      (l : Loc) (name rest : CString)
      → Fits path_max l
      → Fits path_max (extend path_max l name rest)
  unfolding extend grow
  extend-Fits l name rest h = record {
    links = h.links;
    room = ground (
      arith,
      h.room,
      with_slash-le l.dest,
      length-append (reverse name) (with_slash l.dest),
      length-reverse name,
    );
    wide = ground (arith, h.wide);
  }

module _ {S : Type 0} (lstat : CString → S → Result Stat × S)
    (readlink : CString → S → Result CString × S) (path_max : ℕ) (read_last_link : Bool)
    (large : 1 < path_max) where
  follow-Falls :
      (l : Loc) (rest target : CString) (n : ℕ)
      → Fits path_max l
      → path_max + (max_symlinks - l.num_links) * path_max ≤ n
      → Falls path_max n (follow lstat readlink path_max read_last_link l rest target)
  unfolding follow
  follow-Falls l rest target n f m =
      Falls-if path_max n (leb path_max (length target + length rest)) _ _ (λ _. tt)
        λ short. (
          ground (arith, length-append target rest),
          record {
            links = f.links;
            room = ground (arith, f.room, f.wide, back-le l.dest);
            wide = f.wide;
          },
        )

  follow_result-Falls :
      (l : Loc) (rest : CString) (r : Result CString) (n : ℕ)
      → Fits path_max l
      → path_max + (max_symlinks - l.num_links) * path_max ≤ n
      → Falls path_max n (follow_result lstat readlink path_max read_last_link l rest r)
  unfolding follow_result
  follow_result-Falls l rest (err e) n f m = tt
  follow_result-Falls l rest (ok target) n f m = follow-Falls l rest target n f m

  follow_link-Falls :
      (l : Loc) (rest : CString) (s : S) (n : ℕ)
      → Fits path_max l
      → (max_symlinks - l.num_links) * path_max ≤ n
      → Falls path_max n (follow_link lstat readlink path_max read_last_link l rest s).0
  unfolding follow_link
  follow_link-Falls l rest s n f m =
      Falls-if_state path_max n (ltb max_symlinks (l.num_links + 1)) _ _ (λ _. tt)
        λ more.
          follow_result-Falls (record l { num_links = l.num_links + 1 }) rest
            (readlink (reverse l.dest) s).0 n
            (record { links = ground arith; room = f.room; wide = f.wide })
            (let k : l.num_links < 20 = ground arith in
              omega (arith, one_link_less l.num_links path_max k))

  looked_up-Falls :
      (l : Loc) (rest : CString) (r : Result Stat) (s : S) (n : ℕ)
      → Fits path_max l
      → measure path_max l < n
      → Falls path_max n (looked_up lstat readlink path_max read_last_link l rest r s).0
  unfolding looked_up
  looked_up-Falls l rest (err e) s n f m =
      Falls-if path_max n (e == enoent && empty_path rest) _ _ (λ _. (m, f)) (λ _. tt)
  looked_up-Falls l rest (ok buf) s n f m =
      Falls-if_state path_max n (is_link_mode buf.st_mode) _ _
        (λ _. follow_link-Falls l rest s n f (omega arith)) (λ _. (m, f))

  visit-Falls :
      (l : Loc) (name rest : CString) (s : S) (n : ℕ)
      → Fits path_max l
      → length rest + (max_symlinks - l.num_links) * path_max < n
      → Falls path_max n (visit lstat readlink path_max read_last_link l name rest s).0
  unfolding visit
  visit-Falls l name rest s n f m =
      let l' = extend path_max l name rest in
      let f' = extend-Fits path_max l name rest f in
      let m' : measure path_max l' < n = unfold extend in m in
      Falls-if_state path_max n (not read_last_link && empty_path rest) _ _ (λ _. (m', f'))
        (λ _. let (r, s') = lstat (reverse l'.dest) s in looked_up-Falls l' rest r s' n f' m')

  -- A round that goes on leaves less to do, has followed no more than 20 links, and keeps the path
  -- and its NUL inside the buffer.
  pub round-Falls :
      (l : Loc) (s : S)
      → Fits path_max l
      → Falls path_max (measure path_max l) (round lstat readlink path_max read_last_link l s).0
  unfolding round
  round-Falls l s f =
      let start = skip_slashes l.end in
      let name = component start in
      let rest = behind start in
      let n = measure path_max l in
      let less = λ (a : (length name == 0) ≡ false).
        let h : length rest < length l.end =
          ground (arith, component-behind start, skip_slashes-le l.end) in
        h in
      Falls-if_state path_max n (length name == 0) _ _ (λ _. tt)
        λ a.
          let m : length rest + (max_symlinks - l.num_links) * path_max < n =
            omega (arith, less a) in
          Falls-if_state path_max n (str_eq name dot) _ _
            (λ _. (m, record { links = f.links; room = f.room; wide = f.wide }))
            λ b.
              Falls-if_state path_max n (str_eq name dot_dot) _ _
                (λ _. (
                  m,
                  record {
                    links = f.links;
                    room = omega (arith, back-le l.dest, f.room);
                    wide = f.wide;
                  },
                ))
                λ c. visit-Falls l name rest s n f m

  walk-ends :
      (fuel : ℕ) (l : Loc) (s : S)
      → Fits path_max l
      → measure path_max l < fuel
      → (r : Result CString × S) × (walk lstat readlink path_max read_last_link fuel l s ≡ some r)
  unfolding walk
  walk-ends zero l s f m = absurd (omega arith)
  walk-ends (suc fuel) l s f m =
      after (round lstat readlink path_max read_last_link l s) (round-Falls l s f) (walk-ends fuel)
    where
      after :
          (r : Round × S)
          → Falls path_max (measure path_max l) r.0
          → ((l' : Loc) (s' : S)
              → Fits path_max l'
              → measure path_max l' < fuel
              → (r : Result CString × S) × (walk lstat readlink path_max read_last_link fuel l' s'
                  ≡ some r))
          → (x : Result CString × S) × ((let (r', s') = r in
                elim r' [
                  | done ↦ some (ok (reverse (trim l.dest)), s')
                  | fail e ↦ some (err e, s')
                  | go l' ↦ walk lstat readlink path_max read_last_link fuel l' s'
                ])
              ≡ some x)
      after (done, s') k ih = ((ok (reverse (trim l.dest)), s'), refl)
      after (fail e, s') k ih = ((err e, s'), refl)
      after (go l', s') k ih = ih l' s' k.1 (omega (arith, k.0))

  -- A round of the loop that goes on has followed no more than 20 links, keeps the path with its NUL
  -- inside the buffer, never shrinks the buffer below PATH_MAX, which is more than 1, and leaves less
  -- to do, if all that held of links, path and buffer before it.
  pub round-Fits :
      (l l' : Loc) (s s' : S)
      → Fits path_max l
      → round lstat readlink path_max read_last_link l s ≡ (go l', s')
      → Fits path_max l' × (measure path_max l' < measure path_max l)
  round-Fits l l' s s' f e =
      let h =
        subst (λ (r : Round × S). Falls path_max (measure path_max l) r.0) e (round-Falls l s f) in
      (h.1, h.0)

  -- A working directory that fits the buffer of PATH_MAX bytes into which it is copied.
  abbrev pub ShortCwd : Option CString → Type 0
  ShortCwd none = Unit {0}
  ShortCwd (some cwd) = length cwd < path_max

  abbrev pub name_length : Option CString → ℕ
  name_length none = 0
  name_length (some name) = length name

  -- canonical() ends, whatever the file systems answer, where the working directory is shorter than
  -- PATH_MAX, which is more than 1: as many rounds are enough as the name has characters and twenty
  -- targets of links can have.
  pub canonical_ends :
      (fuel : ℕ) (cwd name : Option CString) (s : S)
      → ShortCwd cwd
      → name_length name + 20 * path_max < fuel
      → (r : Result CString × S) × (canonical lstat readlink path_max read_last_link fuel cwd name s
          ≡ some r)
  unfolding canonical
  canonical_ends fuel cwd none s c m = ((err einval, s), refl)
  canonical_ends fuel cwd (some []) s c m = ((err enoent, s), refl)
  canonical_ends fuel none (some (x ∷ name)) s c m = elim (Bool-cases (x == b'/')) [
    | inl rooted ↦ rw rooted (
        walk-ends fuel _ s (record { links = omega arith; room = omega arith; wide = omega arith })
          m)
    | inr relative ↦ rw relative ((err einval, s), refl)
  ]
  canonical_ends fuel (some cwd) (some (x ∷ name)) s c m =
      walk-ends fuel _ s
        (record {
          links = omega arith;
          room = ground (arith, length-reverse cwd, c);
          wide = omega arith;
        })
        m
