-- ===== src/Dcache/Remove.antt =====
-- path_remove takes a path out of its bucket, and where it does not.
use okfs.Base.{
  ℕ, ◌≡◌, ◌≢◌, ◌↔◌, refl, sym, ap, ◌∙◌, inl, inr, Bool, true, false, Option, none, some, List, [],
  ◌∷◌, if◌then◌else◌, CString, str_eq, str_eq_iff, arith, Bool-cases,
}
use mathlib.Core.Option.{some-injective}
use okfs.Dcache.{
  Cache, update, find_path, name_hash, find_inode, unlink_behind, unlink_path, path_remove,
}

-- A bucket where path_remove reads through a null or an unset pointer: the empty one, and one that
-- has the path as its second entry.
pub Unreadable : CString → List (CString × ℕ) → Type 0
Unreadable path [] = Unit {0}
Unreadable path (e ∷ []) = ⊥
Unreadable path ((p, i) ∷ (q, j) ∷ rest) = (str_eq p path ≡ false) × (str_eq q path ≡ true)

-- A bucket names no path twice.
abbrev pub Distinct : List (CString × ℕ) → Type 0
Distinct [] = Unit {0}
Distinct ((p, i) ∷ rest) = (find_path p rest ≡ none) × Distinct rest

behind_set : (path : CString) (l : List (CString × ℕ)) → unlink_behind path true l ≢ none
unfolding unlink_behind
behind_set path [] h = cc
behind_set path ((p, i) ∷ rest) h = ground (arith, behind_set path rest)

unlink_path-none :
    (path : CString) (l : List (CString × ℕ)) → unlink_path path l ≡ none ↔ Unreadable path l
unfolding unlink_path Unreadable
unlink_path-none path [] = ((λ h. tt), λ h. refl)
unlink_path-none path ((p, i) ∷ []) = ((λ h. ground arith), λ h. absurd h)
unlink_path-none path ((p, i) ∷ (q, j) ∷ rest) =
    (λ h. ground (arith, behind_set path rest), λ h. ground arith)

-- What a removal leaves: the path is gone, all other paths are found as before.
abbrev Without : CString → List (CString × ℕ) → Option (List (CString × ℕ)) → Type 0
Without path l none = Unit {0}
Without path l (some l') =
    (q : CString) → find_path q l' ≡ (if str_eq path q then none else find_path q l)

cons-Without :
    (path p : CString) (i : ℕ) (l : List (CString × ℕ)) (o : Option (List (CString × ℕ)))
    → str_eq p path ≡ false
    → Without path l o
    → Without path ((p, i) ∷ l) (elim o [ none ↦ none | some l' ↦ some ((p, i) ∷ l') ])
unfolding find_path
cons-Without path p i l none h w = tt
cons-Without path p i l (some l') h w =
    λ q. ground (arith, w q, str_eq_iff p q, str_eq_iff path q, str_eq_iff p path)

first-Without :
    (path p : CString) (i : ℕ) (l : List (CString × ℕ))
    → str_eq p path ≡ true
    → find_path p l ≡ none
    → Without path ((p, i) ∷ l) (some l)
unfolding find_path
first-Without path p i l h d q = ground (
  arith,
  str_eq_iff p q,
  str_eq_iff path q,
  str_eq_iff p path,
  ap (λ x. find_path x l) {x = p} {y = q},
)

nothing-Without : (path : CString) → Without path [] (some [])
unfolding find_path
nothing-Without path q = ground arith

unlink_behind-Without :
    (path : CString) (b : Bool) (l : List (CString × ℕ))
    → Distinct l
    → Without path l (unlink_behind path b l)
unfolding unlink_behind
unlink_behind-Without path b [] d = nothing-Without path
unlink_behind-Without path b ((p, i) ∷ rest) d = elim (Bool-cases (str_eq p path)) [
  | inl it ↦ rw it (last b it)
  | inr other ↦
      rw other (cons-Without path p i rest _ other (unlink_behind-Without path true rest d.1))
]
  where
    last :
        (b : Bool)
        → str_eq p path ≡ true
        → Without path ((p, i) ∷ rest) (if b then some rest else none)
    last true it = first-Without path p i rest it d.0
    last false it = tt

unlink_path-Without :
    (path : CString) (l : List (CString × ℕ)) → Distinct l → Without path l (unlink_path path l)
unfolding unlink_path
unlink_path-Without path [] d = tt
unlink_path-Without path ((p, i) ∷ rest) d = elim (Bool-cases (str_eq p path)) [
  | inl it ↦ rw it (first-Without path p i rest it d.0)
  | inr other ↦
      rw other (cons-Without path p i rest _ other (unlink_behind-Without path false rest d.1))
]

-- path_remove from what is left of the bucket.
abbrev removed : Cache → ℕ → Option (List (CString × ℕ)) → Option Cache
removed c hash none = none
removed c hash (some l) = some (record c { ipath_cache = update c.ipath_cache hash l })

removed-none :
    (c : Cache) (hash : ℕ) (o : Option (List (CString × ℕ))) → removed c hash o ≡ none ↔ (o ≡ none)
removed-none c hash none = ((λ e. refl), (λ e. refl))
removed-none c hash (some l) = ((λ e. cc), (λ e. cc))

find_path-updated :
    (hash : CString → ℕ) (t : ℕ → List (CString × ℕ)) (path q : CString) (l : List (CString × ℕ))
    → Without path (t (hash path)) (some l)
    → find_path q (update t (hash path) l (hash q))
      ≡ (if str_eq path q then none else find_path q (t (hash q)))
find_path-updated hash t path q l w =
    ground
      (arith, w q, str_eq_iff path q, ap hash {x = path} {y = q}, ap t {x = hash path} {y = hash q})

find_path-removed :
    (hash : CString → ℕ) (c c' : Cache) (path q : CString) (o : Option (List (CString × ℕ)))
    → Without path (c.ipath_cache (hash path)) o
    → removed c (hash path) o ≡ some c'
    → find_path q (c'.ipath_cache (hash q))
      ≡ (if str_eq path q then none else find_path q (c.ipath_cache (hash q)))
find_path-removed hash c c' path q none w e = cc
find_path-removed hash c c' path q (some l) w e =
    ap (λ x. find_path q (x.ipath_cache (hash q))) (sym (some-injective _ _ e))
    ∙ find_path-updated hash c.ipath_cache path q l w

module _ (full_name_hash : CString → ℕ) where
  path_remove-removed :
      (c : Cache) (path : CString)
      → path_remove full_name_hash c path
        ≡ removed c
            (name_hash full_name_hash path)
            (unlink_path path (c.ipath_cache (name_hash full_name_hash path)))
  unfolding path_remove
  path_remove-removed c path = ground arith

  -- path_remove reads through a null or an unset pointer exactly where the path's bucket is empty,
  -- or has another path first and this one second.
  pub path_remove-none :
      (c : Cache) (path : CString)
      → path_remove full_name_hash c path ≡ none
        ↔ Unreadable path (c.ipath_cache (name_hash full_name_hash path))
  path_remove-none c path =
      let b = c.ipath_cache (name_hash full_name_hash path) in
      let r = removed-none c (name_hash full_name_hash path) (unlink_path path b) in
      rw (path_remove-removed c path)
        ((λ h. (unlink_path-none path b).0 (r.0 h)), (λ h. r.1 ((unlink_path-none path b).1 h)))

  -- Where no path is twice in a bucket and path_remove reads no bad pointer, it takes the path out
  -- of the cache and every other path is found as before.
  pub find_inode-path_remove :
      (c c' : Cache) (path q : CString)
      → Distinct (c.ipath_cache (name_hash full_name_hash path))
      → path_remove full_name_hash c path ≡ some c'
      → find_inode full_name_hash c' q
        ≡ (if str_eq path q then none else find_inode full_name_hash c q)
  unfolding find_inode
  find_inode-path_remove c c' path q d e =
      let b = c.ipath_cache (name_hash full_name_hash path) in
      find_path-removed (name_hash full_name_hash) c c' path q (unlink_path path b)
        (unlink_path-Without path b d) (sym (path_remove-removed c path) ∙ e)
