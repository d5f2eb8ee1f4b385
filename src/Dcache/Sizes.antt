-- ===== src/Dcache/Sizes.antt =====
-- The new size of a file after truncate(), under all its names.
use okfs.Base.{ℕ, zero, suc, ◌≡◌, ◌≢◌, refl, some, List, [], ◌∷◌, CString, get_elem?, set, arith}
use okfs.Dcache.{Inode, Cache, find_inode, change_inode, set_size, change_file_size}

get_elem?-set_same :
    {A : Type 0} (l : List A) (p : ℕ) (a b : A)
    → get_elem? l p ≡ some a
    → get_elem? (set l p b) p ≡ some b
get_elem?-set_same [] p a b h = cc
get_elem?-set_same (x ∷ l) zero a b h = refl
get_elem?-set_same (x ∷ l) (suc p) a b h = get_elem?-set_same l p a b h

get_elem?-set_other :
    {A : Type 0} (l : List A) (p q : ℕ) (b : A) → q ≢ p → get_elem? (set l p b) q ≡ get_elem? l q
get_elem?-set_other [] p q b ne = refl
get_elem?-set_other (x ∷ l) zero zero b ne = absurd (ne refl)
get_elem?-set_other (x ∷ l) zero (suc q) b ne = refl
get_elem?-set_other (x ∷ l) (suc p) zero b ne = refl
get_elem?-set_other (x ∷ l) (suc p) (suc q) b ne = get_elem?-set_other l p q b (omega arith)

module _ (full_name_hash : CString → ℕ) where
  -- After change_file_size every path that has the inode of the changed one, as hard links have,
  -- shows the new size and the time of the change, and a path with another inode shows what it did.
  pub change_file_size-links :
      (c : Cache) (path q : CString) (size now p k : ℕ) (i : Inode)
      → find_inode full_name_hash c path ≡ some p
      → get_elem? c.inodes p ≡ some i
      → find_inode full_name_hash c q ≡ some k
      → let c' = change_file_size full_name_hash c path size now in
        (find_inode full_name_hash c' q ≡ some k)
        × (k ≡ p
            → get_elem? c'.inodes k
              ≡ some (record i {
                statbuf = record i.statbuf { st_size = size; st_atime = now; st_mtime = now };
              }))
        × (k ≢ p → get_elem? c'.inodes k ≡ get_elem? c.inodes k)
  unfolding change_file_size change_inode find_inode
  change_file_size-links c path q size now p k i f e g = (
    ground (arith, f, e, g),
    λ same. ground (arith, f, e, get_elem?-set_same c.inodes p i (set_size size now i) e, same),
    λ other. ground (arith, f, e, get_elem?-set_other c.inodes p k (set_size size now i) other),
  )
