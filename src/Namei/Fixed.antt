-- ===== src/Namei/Fixed.antt =====
-- Without links, a canonical path is its own canonical name.
use mathlib.Core.Path.{subst}
use mathlib.Core.List.{
  reverse, reverse_aux, reverse-reverse, reverse-append, append-nil, append_assoc,
}
use okfs.Base.{
  ℕ, zero, suc, ◌<◌, ◌≤◌, ◌≡◌, ◌≢◌, refl, ap, sym, ◌∙◌, inl, inr, Bool, false, not, ◌&&◌, Option,
  none, some, List, [], ◌∷◌, ◌++◌, CString, length, arith, Bool-cases, length-append,
}
use okfs.Stat.{Stat, Result, ok, err, is_link_mode}
use okfs.Namei.{
  empty_path, skip_slashes, component, trim, Loc, Round, done, fail, go, extend, looked_up, visit,
  round, walk, canonical,
}
use okfs.Namei.Text.{text, component-text, behind-text, skip_slashes-text}
use okfs.Namei.Form.{IsName, AllNames, IsCanonical, spell, At, At-with_name, trim-spells, render}

module _ {S : Type 0} (lstat : CString → S → Result Stat × S)
    (readlink : CString → S → Result CString × S) (path_max : ℕ) (read_last_link : Bool) where
  -- No file is a link.
  abbrev pub NoLinks : Type 0
  NoLinks =
      (p : CString) (s : S)
      → (st : Stat) × (s' : S) × (lstat p s ≡ (ok st, s')) × (is_link_mode st.st_mode ≡ false)

  visit-no_links :
      (l : Loc) (name rest : CString) (s : S)
      → NoLinks
      → (s' : S) × (visit lstat readlink path_max read_last_link l name rest s
          ≡ (go (extend path_max l name rest), s'))
  unfolding visit looked_up
  visit-no_links l name rest s h = elim (Bool-cases (not read_last_link && empty_path rest)) [
    | inl last ↦ (s, rw last)
    | inr more ↦
        let (st, s', e, f) = h (reverse (extend path_max l name rest).dest) s in
        (s', rw (more, e, f))
  ]

  round-name :
      (l : Loc) (c : CString) (cs : List CString) (s : S)
      → NoLinks
      → IsName c
      → l.end ≡ text (c ∷ cs)
      → (s' : S) × (round lstat readlink path_max read_last_link l s
          ≡ (go (extend path_max l c (text cs)), s'))
  unfolding round
  round-name l c cs s h n e =
      rw
        (
          e,
          skip_slashes-text c cs n,
          component-text c cs n.no_slash,
          behind-text c cs n.no_slash,
          n.nonempty,
          n.not_dot,
          n.not_dot_dot,
        )
        (visit-no_links l c (text cs) s h)

  round-end :
      (l : Loc) (s : S)
      → skip_slashes l.end ≡ []
      → round lstat readlink path_max read_last_link l s ≡ (done, s)
  unfolding round component
  round-end l s e = rw e

  abbrev after_round : ℕ → Loc → Round × S → Option (Result CString × S)
  after_round fuel l (done, s) = some (ok (reverse (trim l.dest)), s)
  after_round fuel l (fail e, s) = some (err e, s)
  after_round fuel l (go l', s) = walk lstat readlink path_max read_last_link fuel l' s

  walk-round :
      (fuel : ℕ) (l : Loc) (s : S) (r : Round × S)
      → round lstat readlink path_max read_last_link l s ≡ r
      → walk lstat readlink path_max read_last_link (suc fuel) l s ≡ after_round fuel l r
  unfolding walk
  walk-round fuel l s r e =
      eta (round lstat readlink path_max read_last_link l s) ∙ ap (after_round fuel l) e
    where
      eta :
          (r : Round × S)
          → (let (r', s') = r in
              elim r' [
                | done ↦ some (ok (reverse (trim l.dest)), s')
                | fail e ↦ some (err e, s')
                | go l' ↦ walk lstat readlink path_max read_last_link fuel l' s'
              ])
            ≡ after_round fuel l r
      eta (done, s') = refl
      eta (fail e, s') = refl
      eta (go l', s') = refl

  -- From a path at the names `above`, the rest of the text is put behind it, name by name.
  walk-text :
      (fuel : ℕ) (l : Loc) (above below : List CString) (s : S)
      → NoLinks
      → AllNames above
      → AllNames below
      → At l.dest above
      → l.end ≡ text below
      → length below < fuel
      → (s' : S) × (walk lstat readlink path_max read_last_link fuel l s
          ≡ some (ok (spell (reverse_aux below above)), s'))
  walk-text zero l above below s h a b p e f = absurd (omega arith)
  walk-text (suc fuel) l above [] s h a b p e f = (
    s,
    walk-round fuel l s _ (round-end l s (unfold skip_slashes in ap skip_slashes e))
        ∙ ap (λ q. some (ok q, s)) (trim-spells l.dest above a p),
  )
  walk-text (suc fuel) l above (c ∷ below) s h a b p e f =
      let (s1, r) = round-name l c below s h b.0 e in
      let l' = extend path_max l c (text below) in
      let (s2, w) =
        walk-text fuel l' (c ∷ above) below s1 h (b.0, a) b.1
          (unfold extend in At-with_name l.dest c above a p) (unfold extend in refl)
          (omega arith) in
      (s2, walk-round fuel l s _ r ∙ w)

  walk-root :
      (fuel : ℕ) (l : Loc) (s : S)
      → l.dest ≡ b'/' ∷ []
      → l.end ≡ b'/' ∷ []
      → walk lstat readlink path_max read_last_link (suc fuel) l s ≡ some (ok (b'/' ∷ []), s)
  unfolding skip_slashes trim
  walk-root fuel l s d e =
      walk-round fuel l s _ (round-end l s (ap skip_slashes e))
      ∙ ap (λ q. some (ok (reverse (trim q)), s)) d

  -- canonical() reads an absolute name of plain components to its end.
  canonical-text :
      (fuel : ℕ) (cwd : Option CString) (c : CString) (cs : List CString) (s : S)
      → NoLinks
      → AllNames (c ∷ cs)
      → length (c ∷ cs) < fuel
      → (s' : S) × (canonical lstat readlink path_max read_last_link fuel cwd
            (some (text (c ∷ cs)))
            s
          ≡ some (ok (spell (reverse (c ∷ cs))), s'))
  unfolding canonical
  canonical-text fuel none c cs s h n f =
      walk-text fuel _ [] (c ∷ cs) s h tt n (inl (unfold render in refl)) refl f
  canonical-text fuel (some cwd) c cs s h n f =
      walk-text fuel _ [] (c ∷ cs) s h tt n (inl (unfold render in refl)) refl f

  abbrev root_loc : Loc
  root_loc = record { dest = b'/' ∷ []; limit = path_max; num_links = 0; end = b'/' ∷ [] }

  canonical-root :
      (fuel : ℕ) (cwd : Option CString) (s : S)
      → 0 < fuel
      → canonical lstat readlink path_max read_last_link fuel cwd (some (b'/' ∷ [])) s
        ≡ some (ok (b'/' ∷ []), s)
  unfolding canonical
  canonical-root zero cwd s f = absurd (omega arith)
  canonical-root (suc fuel) none s f = walk-root fuel root_loc s refl refl
  canonical-root (suc fuel) (some cwd) s f = walk-root fuel root_loc s refl refl

text-render : (cs ds : List CString) → reverse (render cs) ++ text ds ≡ text (reverse_aux cs ds)
unfolding render
text-render [] ds = refl
text-render (c ∷ cs) ds =
    let R = render cs in
    ap (λ t. t ++ text ds) (reverse-append (reverse c) (b'/' ∷ R))
    ∙ ap (λ t. (t ++ reverse (reverse c)) ++ text ds) (reverse-append (b'/' ∷ []) R)
    ∙ ap (λ t. ((reverse R ++ (b'/' ∷ [])) ++ t) ++ text ds) (reverse-reverse c)
    ∙ append_assoc (reverse R ++ (b'/' ∷ [])) c (text ds)
    ∙ append_assoc (reverse R) (b'/' ∷ []) (c ++ text ds)
    ∙ text-render cs (c ∷ ds)

AllNames-reverse_aux :
    (cs ds : List CString) → AllNames cs → AllNames ds → AllNames (reverse_aux cs ds)
AllNames-reverse_aux [] ds h k = k
AllNames-reverse_aux (c ∷ cs) ds h k = AllNames-reverse_aux cs (c ∷ ds) h.1 (h.0, k)

length-le-text : (cs : List CString) → length cs ≤ length (text cs)
length-le-text [] = omega arith
length-le-text (c ∷ cs) = omega (arith, length-le-text cs, length-append c (text cs))

-- The names of a path, in their order from the root.
in_order : (cs : List CString) → (cs ≢ []) → spell cs ≡ text (reverse cs)
unfolding spell
in_order [] h = absurd (h refl)
in_order (c ∷ cs) h = sym (append-nil _) ∙ text-render (c ∷ cs) []

module _ {S : Type 0} (lstat : CString → S → Result Stat × S)
    (readlink : CString → S → Result CString × S) (path_max : ℕ) (read_last_link : Bool) where
  fixed_in_order :
      (fuel : ℕ) (cwd : Option CString) (cs ds : List CString) (s : S)
      → NoLinks lstat readlink path_max read_last_link
      → AllNames cs
      → cs ≢ []
      → length (spell cs) < fuel
      → reverse cs ≡ ds
      → (s' : S) × (canonical lstat readlink path_max read_last_link fuel cwd (some (spell cs)) s
          ≡ some (ok (spell cs), s'))
  fixed_in_order fuel cwd cs [] s h n ne f e = absurd (ne (sym (reverse-reverse cs) ∙ ap reverse e))
  fixed_in_order fuel cwd cs (d ∷ ds) s h n ne f e =
      let t : spell cs ≡ text (d ∷ ds) = in_order cs ne ∙ ap text e in
      let m : AllNames (d ∷ ds) = subst AllNames e (AllNames-reverse_aux cs [] n tt) in
      let back : reverse (d ∷ ds) ≡ cs = ap reverse (sym e) ∙ reverse-reverse cs in
      let (s', w) =
        canonical-text lstat readlink path_max read_last_link fuel cwd d ds s h m
          (omega (arith, length-le-text (d ∷ ds), ap length t)) in
      (
        s',
        ap (λ q. canonical lstat readlink path_max read_last_link fuel cwd (some q) s) t
            ∙ w
            ∙ ap (λ q. some (ok (spell q), s')) back,
      )

  fixed_spell :
      (fuel : ℕ) (cwd : Option CString) (cs : List CString) (s : S)
      → NoLinks lstat readlink path_max read_last_link
      → AllNames cs
      → length (spell cs) < fuel
      → (s' : S) × (canonical lstat readlink path_max read_last_link fuel cwd (some (spell cs)) s
          ≡ some (ok (spell cs), s'))
  unfolding spell
  fixed_spell fuel cwd [] s h n f =
      (s, canonical-root lstat readlink path_max read_last_link fuel cwd s (omega arith))
  fixed_spell fuel cwd (c ∷ cs) s h n f = fixed_in_order fuel cwd (c ∷ cs) _ s h n (λ e. cc) f refl

  -- Where no file is a link, canonical() of a canonical path is that path, whatever the working
  -- directory is; more rounds than the path has characters are enough.
  pub canonical-fixed :
      (fuel : ℕ) (cwd : Option CString) (p : CString) (s : S)
      → NoLinks lstat readlink path_max read_last_link
      → IsCanonical p
      → length p < fuel
      → (s' : S) × (canonical lstat readlink path_max read_last_link fuel cwd (some p) s
          ≡ some (ok p, s'))
  canonical-fixed fuel cwd p s h c f =
      rw c.spelled
        (fixed_spell fuel cwd c.names s h c.are_names (omega (arith, ap length c.spelled)))
