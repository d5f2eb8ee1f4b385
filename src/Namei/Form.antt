-- ===== src/Namei/Form.antt =====
-- The form of the paths that canonical() builds: an absolute path without empty components, `.` and
-- `..`.
use mathlib.Core.List.{reverse, reverse-append, reverse-reverse}
use okfs.Base.{
  ℕ, ◌≡◌, ◌≢◌, refl, ap, sym, ◌∙◌, ◌⊎◌, inl, inr, Bool, false, ◌||◌, List, [], ◌∷◌, ◌++◌, ◌==◌,
  CString, str_eq, length, arith,
}
use okfs.Namei.{component, dot, dot_dot, pop_to_slash, back, with_slash, trim}

abbrev pub has_slash : CString → Bool
has_slash [] = false
has_slash (c ∷ s) = c == b'/' || has_slash s

-- A component that names a file.
pub record IsName (c : CString) : Type 0 where
  pub nonempty : (length c == 0) ≡ false
  pub no_slash : has_slash c ≡ false
  pub not_dot : str_eq c dot ≡ false
  pub not_dot_dot : str_eq c dot_dot ≡ false

abbrev pub AllNames : List CString → Type 0
AllNames [] = Unit {0}
AllNames (c ∷ cs) = IsName c × AllNames cs

-- "/c1/c2/.../cn" with its last character first, for the components with the last one first.
unfoldable pub render : List CString → CString
render [] = []
render (c ∷ cs) = reverse c ++ (b'/' ∷ render cs)

-- The absolute path of a file by the names on the way to it, the last one first.
unfoldable pub spell : List CString → CString
spell [] = b'/' ∷ []
spell (c ∷ cs) = reverse (render (c ∷ cs))

-- An absolute path with no empty component, no `.`, no `..` and no slash at its end, but for the
-- root.
pub record IsCanonical (p : CString) : Type 0 where
  pub names : List CString
  pub are_names : AllNames names
  pub spelled : p ≡ spell names

-- `dest` is at the directory or file `cs`, with a slash behind it or not.
abbrev pub At : CString → List CString → Type 0
At d cs = (d ≡ b'/' ∷ render cs) ⊎ ((d ≡ render cs) × (cs ≢ []))

has_slash-append : (s t : CString) → has_slash (s ++ t) ≡ (has_slash s || has_slash t)
has_slash-append [] t = refl
has_slash-append (c ∷ s) t = ground (arith, has_slash-append s t)

has_slash-reverse : (s : CString) → has_slash (reverse s) ≡ has_slash s
has_slash-reverse [] = refl
has_slash-reverse (c ∷ s) =
    ap has_slash (reverse-append (c ∷ []) s)
    ∙ has_slash-append (reverse s) (c ∷ [])
    ∙ ground (arith, has_slash-reverse s)

pop_to_slash-append :
    (s t : CString) → has_slash s ≡ false → pop_to_slash (s ++ (b'/' ∷ t)) ≡ b'/' ∷ t
unfolding pop_to_slash
pop_to_slash-append [] t h = refl
pop_to_slash-append (c ∷ s) t h = ground (arith, pop_to_slash-append s t)

-- A name backwards: it has a last character, which is no slash.
record Backwards (c : CString) : Type 0 where
  last : ℕ
  others : CString
  reversed : reverse c ≡ last ∷ others
  last_no_slash : (last == b'/') ≡ false
  others_no_slash : has_slash others ≡ false

backwards : (c : CString) → IsName c → Backwards c
backwards c n = go (reverse c) refl
  where
    no_slash : has_slash (reverse c) ≡ false
    no_slash = has_slash-reverse c ∙ n.no_slash

    go : (r : CString) → reverse c ≡ r → Backwards c
    go [] e =
        let f : c ≡ [] = sym (reverse-reverse c) ∙ ap reverse e in
        let g : length c ≡ 0 = ap length f in absurd (ground (arith, n.nonempty))
    go (x ∷ r) e =
        let f : has_slash (x ∷ r) ≡ false = ap has_slash (sym e) ∙ no_slash in
        record {
          last = x;
          others = r;
          reversed = e;
          last_no_slash = ground arith;
          others_no_slash = ground arith;
        }

cons-ne-nil : (c : CString) (cs : List CString) → c ∷ cs ≢ []
cons-ne-nil c cs e = cc

-- The steps on the path as steps on the names.
with_slash-At :
    (d : CString) (cs : List CString) → AllNames cs → At d cs → with_slash d ≡ b'/' ∷ render cs
unfolding with_slash render
with_slash-At d cs n (inl e) = rw e
with_slash-At d [] n (inr h) = absurd (h.1 refl)
with_slash-At d (c ∷ cs) n (inr h) =
    let b = backwards c n.0 in rw (h.0, render, b.reversed, b.last_no_slash)

back-root : back (b'/' ∷ []) ≡ b'/' ∷ []
unfolding back
back-root = refl

pub At-with_name :
    (d : CString) (name : CString) (cs : List CString)
    → AllNames cs
    → At d cs
    → At (reverse name ++ with_slash d) (name ∷ cs)
unfolding render
At-with_name d name cs n h = inr (rw (with_slash-At d cs n h), cons-ne-nil name cs)

back-append :
    (x : ℕ) (r u : CString) → back (x ∷ (r ++ (b'/' ∷ u))) ≡ pop_to_slash (r ++ (b'/' ∷ u))
unfolding back
back-append x [] u = refl
back-append x (y ∷ r) u = refl

trim-append :
    (x : ℕ) (r u : CString)
    → (x == b'/') ≡ false
    → trim (x ∷ (r ++ (b'/' ∷ u))) ≡ x ∷ (r ++ (b'/' ∷ u))
unfolding trim
trim-append x [] u h = rw h
trim-append x (y ∷ r) u h = rw h

-- The names without the last one; the root stays the root.
abbrev pub up : List CString → List CString
up [] = []
up (c ∷ cs) = cs

pub At-back : (d : CString) (cs : List CString) → AllNames cs → At d cs → At (back d) (up cs)
unfolding back render
At-back d [] n (inl e) = inl (rw e)
At-back d [] n (inr h) = absurd (h.1 refl)
At-back d (c ∷ cs) n (inl e) =
    let b = backwards c n.0 in
    inl (
      rw (e, b.reversed)
        (pop_to_slash-append (b.last ∷ b.others) (render cs)
          (ground (arith, b.last_no_slash, b.others_no_slash))))
At-back d (c ∷ cs) n (inr h) =
    let b = backwards c n.0 in
    inl (
      rw (h.0, b.reversed)
        (back-append b.last b.others (render cs)
          ∙ pop_to_slash-append b.others (render cs) b.others_no_slash))

pub trim-spells :
    (d : CString) (cs : List CString) → AllNames cs → At d cs → reverse (trim d) ≡ spell cs
unfolding trim spell render
trim-spells d [] n (inl e) = rw e
trim-spells d [] n (inr h) = absurd (h.1 refl)
trim-spells d (c ∷ cs) n (inl e) =
    let b = backwards c n.0 in ap reverse {x = trim d} {y = render (c ∷ cs)} (rw (e, b.reversed))
trim-spells d (c ∷ cs) n (inr h) =
    let b = backwards c n.0 in
    ap reverse {x = trim d} {y = render (c ∷ cs)}
      (rw (h.0, b.reversed) (trim-append b.last b.others (render cs) b.last_no_slash))

-- What `skip_slashes` and `component` cut off, with the tests of the loop, is a name.
no_slash-component : (s : CString) → has_slash (component s) ≡ false
unfolding component
no_slash-component [] = refl
no_slash-component (c ∷ s) = ground (arith, no_slash-component s)

pub component-IsName :
    (s : CString)
    → (length (component s) == 0) ≡ false
    → str_eq (component s) dot ≡ false
    → str_eq (component s) dot_dot ≡ false
    → IsName (component s)
component-IsName s a b c = record {
  nonempty = a;
  no_slash = no_slash-component s;
  not_dot = b;
  not_dot_dot = c;
}
