-- ===== src/Dcache/Lookup.antt =====
-- What cache_add_inode and cache_add_dirent put in the cache is what the lookups find.
use mathlib.Core.List.{append-nil}
use mathlib.Core.Option.{some-injective}
use okfs.Base.{
  sym, ℕ, zero, suc, ◌≡◌, refl, ap, ◌∙◌, inl, inr, Bool, true, false, Option, none, some, List, [],
  ◌∷◌, ◌++◌, if◌then◌else◌, CString, str_eq, eq_of_str_eq, length, get_elem?, arith, Bool-cases,
}
use okfs.Stat.{Stat}
use okfs.Dcache.{
  Inode, Dirent, Cache, update, find_path, has_nr, find_nr, name_hash, find_inode, path_insert,
  same_ino_find, creat_inode, add_inode, find_dirent, add_dirent,
}

find_path-cons {ℓ} :
    {A : Type ℓ} (path q : CString) (a : A) (rest : List (CString × A))
    → find_path q ((path, a) ∷ rest) ≡ (if str_eq path q then some a else find_path q rest)
unfolding find_path
find_path-cons path q a rest = refl

-- Different buckets hold different paths.
find_path-update {ℓ} :
    {A : Type ℓ} (hash : CString → ℕ) (t : ℕ → List (CString × A)) (path q : CString) (a : A)
    → find_path q (update t (hash path) ((path, a) ∷ t (hash path)) (hash q))
      ≡ (if str_eq path q then some a else find_path q (t (hash q)))
unfolding find_path
find_path-update hash t path q a = elim (Bool-cases (str_eq path q)) [
  | inl same ↦
      let e : path ≡ q = eq_of_str_eq path q same in rw (same, ap hash e) (ground (arith, same))
  | inr other ↦ rw other (ground (arith, other, ap t {x = hash q} {y = hash path}))
]

get_elem?-last {ℓ} :
    {A : Type ℓ} (xs : List A) (x : A) → get_elem? (xs ++ x ∷ []) (length xs) ≡ some x
get_elem?-last [] x = refl
get_elem?-last (y ∷ xs) x = get_elem?-last xs x

get_elem?-append {ℓ} :
    {A : Type ℓ} (xs ys : List A) (i : ℕ) (x : A)
    → get_elem? xs i ≡ some x
    → get_elem? (xs ++ ys) i ≡ some x
get_elem?-append [] ys i x h = cc
get_elem?-append (y ∷ xs) ys zero x h = h
get_elem?-append (y ∷ xs) ys (suc i) x h = get_elem?-append xs ys i x h

has_nr-find_nr :
    (inodes : List Inode) (dev ino p : ℕ) (bucket : List ℕ)
    → find_nr inodes dev ino bucket ≡ some p
    → has_nr inodes dev ino p ≡ true
unfolding find_nr
has_nr-find_nr inodes dev ino p [] h = cc
has_nr-find_nr inodes dev ino p (x ∷ rest) h = ground (arith, has_nr-find_nr inodes dev ino p rest)

abbrev entries : Option (List Dirent) → List Dirent
entries none = []
entries (some d) = d

entries-if :
    (b : Bool) (dp : List Dirent) (o : Option (List Dirent))
    → entries (if b then some dp else o) ≡ (if b then dp else entries o)
entries-if true dp o = refl
entries-if false dp o = refl

module _ (full_name_hash : CString → ℕ) where
  find_inode-path_insert :
      (c : Cache) (path q : CString) (p : ℕ)
      → find_inode full_name_hash (path_insert full_name_hash c path p) q
        ≡ (if str_eq path q then some p else find_inode full_name_hash c q)
  unfolding find_inode path_insert
  find_inode-path_insert c path q p =
      find_path-update (name_hash full_name_hash) c.ipath_cache path q p

  -- cache_add_inode, by its two cases.
  pub data Added (c : Cache) (path : CString) (st : Stat) : ℕ × Cache → Type 0 where
    shared :
        (p : ℕ)
        → same_ino_find full_name_hash c st.st_dev st.st_ino ≡ some p
        → Added c path st (p, path_insert full_name_hash c path p)
    created :
        (link : Option CString)
        → same_ino_find full_name_hash c st.st_dev st.st_ino ≡ none
        → Added c path st (
          length c.inodes,
          path_insert full_name_hash
              (creat_inode full_name_hash c st link).1
              path
              (length c.inodes),
        )

  pub Added-add_inode :
      (c : Cache) (path : CString) (st : Stat) (link : Option CString)
      → Added c path st (add_inode full_name_hash c path st link)
  unfolding add_inode
  Added-add_inode c path st link = go (same_ino_find full_name_hash c st.st_dev st.st_ino) refl
    where
      go :
          (o : Option ℕ)
          → same_ino_find full_name_hash c st.st_dev st.st_ino ≡ o
          → Added c path st (elim o [
            | some inop ↦ (inop, path_insert full_name_hash c path inop)
            | none ↦
                let (inop, c') = creat_inode full_name_hash c st link in
                (inop, path_insert full_name_hash c' path inop)
          ])
      go (some p) e = shared p e
      go none e = created link e

  pub find_inode-Added :
      (c : Cache) (path q : CString) (st : Stat) {r : ℕ × Cache}
      → Added c path st r
      → find_inode full_name_hash r.1 q
        ≡ (if str_eq path q then some r.0 else find_inode full_name_hash c q)
  find_inode-Added c path q st (shared p e) = find_inode-path_insert c path q p
  find_inode-Added c path q st (created link e) =
      find_inode-path_insert (creat_inode full_name_hash c st link).1 path q (length c.inodes)
      ∙ unfold find_inode creat_inode in refl

  pub has_nr-Added :
      (c : Cache) (path : CString) (st : Stat) {r : ℕ × Cache}
      → Added c path st r
      → has_nr r.1.inodes st.st_dev st.st_ino r.0 ≡ true
  unfolding path_insert same_ino_find creat_inode has_nr
  has_nr-Added c path st (shared p e) = has_nr-find_nr c.inodes st.st_dev st.st_ino p _ e
  has_nr-Added c path st (created link e) =
      ground (arith, get_elem?-last c.inodes (record { statbuf = st; symlink = link }))

  pub old-Added :
      (c : Cache) (path : CString) (st : Stat) (p : ℕ) (i : Inode) {r : ℕ × Cache}
      → Added c path st r
      → get_elem? c.inodes p ≡ some i
      → get_elem? r.1.inodes p ≡ some i
  unfolding path_insert creat_inode
  old-Added c path st p i (shared p' e) h = h
  old-Added c path st p i (created link e) h = get_elem?-append c.inodes _ p i h

  again-Added :
      (c : Cache) (path : CString) (st : Stat) {r : ℕ × Cache}
      → Added c path st r
      → same_ino_find full_name_hash r.1 st.st_dev st.st_ino ≡ some r.0
  unfolding path_insert same_ino_find creat_inode find_nr has_nr
  again-Added c path st (shared p e) = e
  again-Added c path st (created link e) =
      ground (arith, get_elem?-last c.inodes (record { statbuf = st; symlink = link }))

  found-Added :
      (c : Cache) (path : CString) (st : Stat) (p : ℕ) {r : ℕ × Cache}
      → Added c path st r
      → same_ino_find full_name_hash c st.st_dev st.st_ino ≡ some p
      → (r.0 ≡ p) × (r.1.inodes ≡ c.inodes)
  unfolding path_insert
  found-Added c path st p (shared p' e) h = (ground arith, refl)
  found-Added c path st p (created link e) h = absurd (ground arith)

  grown-Added :
      (c : Cache) (path : CString) (st : Stat) {r : ℕ × Cache}
      → Added c path st r
      → (added : List Inode) × (r.1.inodes ≡ c.inodes ++ added)
        × ((i : ℕ) (inode : Inode) → get_elem? added i ≡ some inode → inode.statbuf ≡ st)
  unfolding path_insert creat_inode
  grown-Added c path st (shared p e) = ([], sym (append-nil c.inodes), λ i inode h. cc)
  grown-Added c path st (created link e) =
      let new : Inode = record { statbuf = st; symlink = link } in
      (new ∷ [], refl, λ i inode h. only new refl i inode h)
    where
      only :
          (new : Inode)
          → new.statbuf ≡ st
          → (i : ℕ) (inode : Inode) → get_elem? (new ∷ []) i ≡ some inode
          → inode.statbuf ≡ st
      only new e zero inode h = ap (λ (x : Inode). x.statbuf) (sym (some-injective _ _ h)) ∙ e
      only new e (suc i) inode h = cc

  -- For every cache, the empty one too: after cache_add_inode the path is found, every other path is
  -- found as before, the inode of the path has the device and inode number that were given, the
  -- inodes that were there are there as they were, at the same places, and one that is new has the
  -- state that was given.
  pub find_inode-add_inode :
      (c : Cache) (path q : CString) (st : Stat) (link : Option CString)
      → let (inop, c') = add_inode full_name_hash c path st link in
        (find_inode full_name_hash c' q
          ≡ (if str_eq path q then some inop else find_inode full_name_hash c q))
        × (has_nr c'.inodes st.st_dev st.st_ino inop ≡ true)
        × (added : List Inode) × (c'.inodes ≡ c.inodes ++ added)
        × ((i : ℕ) (inode : Inode) → get_elem? added i ≡ some inode → inode.statbuf ≡ st)
  find_inode-add_inode c path q st link =
      let a = Added-add_inode c path st link in
      let (added, grown, news) = grown-Added c path st a in
      (find_inode-Added c path q st a, has_nr-Added c path st a, added, grown, news)

  -- Two paths that are added one after the other with the same device and inode number, as those of
  -- hard links are, are given one inode, and it keeps what was stored for the first.
  pub add_inode-links :
      (c : Cache) (a b : CString) (st st' : Stat) (link link' : Option CString)
      → st'.st_dev ≡ st.st_dev
      → st'.st_ino ≡ st.st_ino
      → let (inop, c') = add_inode full_name_hash c a st link in
        let (inop', c'') = add_inode full_name_hash c' b st' link' in
        (inop' ≡ inop) × (c''.inodes ≡ c'.inodes)
  add_inode-links c a b st st' link link' d n =
      let (inop, c') = add_inode full_name_hash c a st link in
      found-Added c' b st' inop (Added-add_inode c' b st' link')
        (rw (d, n) (again-Added c a st (Added-add_inode c a st link)))

  -- A directory that was put in the cache is found with its entries, and the other directories as
  -- before.
  pub find_dirent-add_dirent :
      (c : Cache) (path q : CString) (dp : List Dirent)
      → find_dirent full_name_hash (add_dirent full_name_hash c path dp) q
        ≡ (if str_eq path q then dp else find_dirent full_name_hash c q)
  unfolding find_dirent add_dirent
  find_dirent-add_dirent c path q dp =
      ap (λ (o : Option (List Dirent)). entries o)
        (find_path-update (name_hash full_name_hash) c.dcache path q dp)
      ∙ entries-if (str_eq path q) dp _
