-- ===== src/Vfs/Mounts.antt =====
-- Which file system a path is given to.
use mathlib.Core.Option.{some-injective}
use mathlib.Core.Path.{subst}
use okfs.Base.{
  ℕ, zero, suc, ◌+◌, ◌<◌, ◌≡◌, refl, ap, sym, ◌∙◌, inl, inr, true, false, Option, none, some, List,
  [], ◌∷◌, ◌++◌, CString, starts_with, append_of_starts_with, drop, length, get_elem?, arith,
  Bool-cases,
}
use okfs.Vfs.{Superblock, Env, Resolved, find_mount, locate}

-- No file system among the first n has a mount point that the path starts with.
abbrev NoneBefore : {W : Type 0} → ℕ → List (Superblock W) → CString → Type 0
NoneBefore n l path =
    (j : ℕ) (fsp : Superblock _)
    → j < n
    → get_elem? l j ≡ some fsp
    → starts_with fsp.mnt_point path ≡ false

-- What find_mount says, counting from `from` on.
abbrev Found : {W : Type 0} → ℕ → List (Superblock W) → CString → Option (ℕ × Superblock W) → Type 0
Found from l path none = NoneBefore (length l) l path
Found from l path (some (i, fsp)) =
    (n : ℕ) × (i ≡ n + from)
    × (get_elem? l n ≡ some fsp)
    × (starts_with fsp.mnt_point path ≡ true)
    × NoneBefore n l path

find_mount-Found :
    {W : Type 0} (from : ℕ) (l : List (Superblock W)) (path : CString)
    → Found from l path (find_mount from l path)
unfolding find_mount
find_mount-Found from [] path = λ j fsp lt e. absurd (omega arith)
find_mount-Found from (fsp ∷ rest) path = elim (Bool-cases (starts_with fsp.mnt_point path)) [
  | inl hit ↦ rw hit (0, omega arith, refl, hit, λ j other lt e. absurd (omega arith))
  | inr miss ↦
      rw miss (later (find_mount (1 + from) rest path) (find_mount-Found (1 + from) rest path) miss)
]
  where
    before :
        (n : ℕ)
        → starts_with fsp.mnt_point path ≡ false
        → NoneBefore n rest path
        → NoneBefore (suc n) (fsp ∷ rest) path
    before n miss b zero other lt e =
        ap (λ o. starts_with o.mnt_point path) (some-injective _ _ (sym e)) ∙ miss
    before n miss b (suc j) other lt e = b j other (omega arith) e

    later :
        (o : Option (ℕ × Superblock _))
        → Found (1 + from) rest path o
        → starts_with fsp.mnt_point path ≡ false
        → Found from (fsp ∷ rest) path o
    later none b miss = before (length rest) miss b
    later (some (i, g)) (n, at, here, hit, b) miss =
        (suc n, omega arith, here, hit, before n miss b)

-- `r` names the path itself and the first mounted file system whose mount point the path starts with,
-- with the rest of the path; none if there is no such file system.
abbrev pub Responsible : (E : Env) → CString → Resolved E.World → Type 0
Responsible E path r = (r.canon_path ≡ path) × elim r.place [
  | none ↦ NoneBefore (length E.mounted_fs) E.mounted_fs path
  | some p ↦
      (get_elem? E.mounted_fs p.number ≡ some p.fsp)
      × (p.fsp.mnt_point ++ p.rel_path ≡ path)
      × NoneBefore p.number E.mounted_fs path
]

-- The search of proc_path1 and proc_path2: a path that starts with no mount point is left to the
-- system; any other goes to the first file system of mounted_fs whose mount point it starts with, and
-- mnt_point and rel_path together are the path.
pub locate-first : (E : Env) (path : CString) → Responsible E path (locate E path)
unfolding locate
locate-first E path = go (find_mount 0 E.mounted_fs path) (find_mount-Found 0 E.mounted_fs path)
  where
    go :
        (o : Option (ℕ × Superblock E.World))
        → Found 0 E.mounted_fs path o
        → Responsible E path (elim o [
          | none ↦ record { canon_path = path; place = none }
          | some (i, fsp) ↦ record {
            canon_path = path;
            place =
                some
                  (record { number = i; fsp = fsp; rel_path = drop (length fsp.mnt_point) path });
          }
        ])
    go none f = (refl, f)
    go (some (i, fsp)) (n, at, here, hit, b) =
        let same : n ≡ i = omega arith in
        (
          refl,
          (
            ap (get_elem? E.mounted_fs) (sym same) ∙ here,
            append_of_starts_with fsp.mnt_point path hit,
            subst (λ k. NoneBefore k E.mounted_fs path) same b,
          ),
        )
