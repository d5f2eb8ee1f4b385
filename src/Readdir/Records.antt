-- ===== src/Readdir/Records.antt =====
-- What creat_dirent64 and creat_dirent (vfs_readdir.c) put into the buffer of a process.
use mathlib.Core.Path.{subst}
use okfs.Base.{
  ℕ, zero, suc, ◌+◌, ◌-◌, ◌/◌, ◌<◌, ◌≤◌, ◌≡◌, refl, ap, ◌∙◌, Bool, true, false, ◌⊎◌, inl, inr, List,
  [], ◌∷◌, ◌++◌, ◌==◌, ltb, if◌then◌else◌, CString, length, length-append, arith,
}
use okfs.Base.Int.{ℤ, pos, lt_int}
use okfs.Stat.{Result, ok, err, einval}
use okfs.Dcache.{Dirent}
use okfs.Readdir.{
  bytes_of, strncpy, name_size, reclen64, dirent64, reclen32, dirent32, skip, fill, filled_or,
  creat_dirent64, creat_dirent,
}

-- The records of some entries, from an offset on
pub records : (copy : Dirent → ℕ → List ℕ) → (i : ℕ) → List Dirent → List ℕ
records copy i [] = []
records copy i (d ∷ ds) = copy d i ++ records copy (i + d.name_len) ds

-- The characters of the names of some entries
pub name_bytes : List Dirent → ℕ
name_bytes [] = 0
name_bytes (d ∷ ds) = d.name_len + name_bytes ds

-- Either nothing is left, or the first entry that is left does not fit behind `size` bytes.
abbrev pub Full : (reclen : Dirent → ℕ) → (size count : ℕ) → List Dirent → Type 0
Full reclen size count rest =
    (rest ≡ []) ⊎ ((d : Dirent) × (ds : List Dirent) × (rest ≡ d ∷ ds) × (count < reclen d + size))

-- The value of a call that copies the entries `taken` and leaves `rest`
abbrev pub outcome : List ℕ → (taken rest : List Dirent) → Result (List ℕ)
outcome out [] [] = ok []
outcome out [] (d ∷ rest) = err einval
outcome out (t ∷ taken) rest = ok out

length-bytes_of : (n x : ℕ) → length (bytes_of n x) ≡ n
unfolding bytes_of
length-bytes_of zero x = refl
length-bytes_of (suc n) x = ap suc (length-bytes_of n (x / 256))

length-strncpy : (n : ℕ) (s : CString) → length (strncpy n s) ≡ n
unfolding strncpy
length-strncpy zero s = refl
length-strncpy (suc n) [] = ap suc (length-strncpy n [])
length-strncpy (suc n) (c ∷ s) = ap suc (length-strncpy n s)

-- d_reclen is the number of bytes that are copied.
length-dirent64 : (d : Dirent) (i : ℕ) → length (dirent64 d i) ≡ reclen64 d
unfolding dirent64
length-dirent64 d i = ground (
  arith,
  length-append (strncpy (name_size d - 1) d.name) (0 ∷ []),
  length-strncpy (name_size d - 1) d.name,
)

length-dirent32 : (d : Dirent) (i : ℕ) → length (dirent32 d i) ≡ reclen32 d
unfolding dirent32
length-dirent32 d i = ground (
  arith,
  length-append (strncpy (name_size d - 1) d.name) (0 ∷ []),
  length-strncpy (name_size d - 1) d.name,
)

-- Every entry of `passed` stands in front of the offset `start`, and the one behind them does not.
pub Passes : (i : ℕ) → (start : ℤ) → (passed remaining : List Dirent) → Type 0
Passes i start [] remaining = (remaining ≡ []) ⊎ (lt_int (pos i) start ≡ false)
Passes i start (d ∷ ds) remaining =
    (lt_int (pos i) start ≡ true) × Passes (i + d.name_len) start ds remaining

skip-Passes :
    (i : ℕ) (start : ℤ) (ds : List Dirent)
    → (passed : List Dirent) × (ds ≡ passed ++ (skip i start ds).1)
      × ((skip i start ds).0 ≡ i + name_bytes passed)
      × Passes i start passed (skip i start ds).1
unfolding skip name_bytes Passes
skip-Passes i start [] = ([], refl, omega arith, inl refl)
skip-Passes i start (d ∷ ds) =
    go (lt_int (pos i) start) refl (skip-Passes (i + d.name_len) start ds)
  where
    later : ℕ × List Dirent
    later = skip (i + d.name_len) start ds

    go :
        (b : Bool)
        → lt_int (pos i) start ≡ b
        → (passed : List Dirent) × (ds ≡ passed ++ later.1)
          × (later.0 ≡ i + d.name_len + name_bytes passed)
          × Passes (i + d.name_len) start passed later.1
        → (passed : List Dirent) × ((d ∷ ds) ≡ passed ++ (if b then later else (i, d ∷ ds)).1)
          × ((if b then later else (i, d ∷ ds)).0 ≡ i + name_bytes passed)
          × Passes i start passed (if b then later else (i, d ∷ ds)).1
    go true e (passed, same, at, passes) =
        (d ∷ passed, ap (λ (l : List Dirent). d ∷ l) same, omega (arith, at), (e, passes))
    go false e r = ([], refl, omega arith, inr e)

-- `out` are the records of the first entries of `ds`, as many as fit behind `size` bytes.
abbrev Prefix :
    (reclen : Dirent → ℕ)
    → (copy : Dirent → ℕ → List ℕ) → (i size count : ℕ) → List Dirent
    → List ℕ
    → Type 0
Prefix reclen copy i size count ds out =
    (taken : List Dirent) × (rest : List Dirent) × (ds ≡ taken ++ rest)
    × (out ≡ records copy i taken)
    × (size + length out ≤ count)
    × Full reclen (size + length out) count rest

not_here : (r size count : ℕ) → ltb count (r + size) ≡ true → count < r + (size + 0)
not_here r size count e = ground arith

fill-Prefix :
    (reclen : Dirent → ℕ) (copy : Dirent → ℕ → List ℕ)
    → ((d : Dirent) (i : ℕ) → length (copy d i) ≡ reclen d)
    → (i size count : ℕ) (ds : List Dirent) → size ≤ count
    → Prefix reclen copy i size count ds (fill reclen copy i size count ds)
unfolding fill records
fill-Prefix reclen copy lens i size count [] h = ([], [], refl, refl, omega arith, inl refl)
fill-Prefix reclen copy lens i size count (d ∷ ds) h =
    go (ltb count (reclen d + size)) refl
      (λ fits. fill-Prefix reclen copy lens (i + d.name_len) (size + reclen d) count ds fits)
  where
    later : List ℕ
    later = fill reclen copy (i + d.name_len) (size + reclen d) count ds

    go :
        (b : Bool)
        → ltb count (reclen d + size) ≡ b
        → (size + reclen d ≤ count
            → Prefix reclen copy (i + d.name_len) (size + reclen d) count ds later)
        → Prefix reclen copy i size count (d ∷ ds) (if b then [] else copy d i ++ later)
    go true e r =
        ([], d ∷ ds, refl, refl, omega arith, inr (d, ds, refl, not_here (reclen d) size count e))
    go false e r =
        let (taken, rest, same, out, fits, full) = r (ground arith) in
        let len = length-append (copy d i) later ∙ ap (λ n. n + length later) (lens d i) in
        (
          d ∷ taken,
          rest,
          ap (λ (l : List Dirent). d ∷ l) same,
          ap (λ (l : List ℕ). copy d i ++ l) out,
          omega (arith, len, fits),
          subst (λ n. Full reclen n count rest) (omega (arith, len)) full,
        )

-- What a call returns that lists a directory: the entries in front of an offset are passed over, those
-- taken are copied as records, and the rest stays.
abbrev pub Listed :
    (reclen : Dirent → ℕ)
    → (copy : Dirent → ℕ → List ℕ) → List Dirent
    → (start : ℤ) → (count : ℕ) → Result (List ℕ)
    → Type 0
Listed reclen copy ds start count result =
    (passed : List Dirent) × (taken : List Dirent) × (rest : List Dirent) × (ds
      ≡ passed ++ (taken ++ rest))
    × Passes 0 start passed (taken ++ rest)
    × (length (records copy (name_bytes passed) taken) ≤ count)
    × Full reclen (length (records copy (name_bytes passed) taken)) count rest
    × (result ≡ outcome (records copy (name_bytes passed) taken) taken rest)

module _ (reclen : Dirent → ℕ) (copy : Dirent → ℕ → List ℕ)
    (lens : (d : Dirent) (i : ℕ) → length (copy d i) ≡ reclen d)
    (positive : (d : Dirent) → 0 < reclen d) where
  filled_or-outcome :
      (i : ℕ) (taken rest : List Dirent)
      → filled_or (taken ++ rest) (records copy i taken) ≡ outcome (records copy i taken) taken rest
  unfolding filled_or records
  filled_or-outcome i [] [] = refl
  filled_or-outcome i [] (d ∷ rest) = refl
  filled_or-outcome i (t ∷ taken) rest = rw (some_bytes) refl
    where
      some_bytes : (length (copy t i ++ records copy (i + t.name_len) taken) == 0) ≡ false
      some_bytes = ground (
        arith,
        length-append (copy t i) (records copy (i + t.name_len) taken),
        lens t i,
        positive t,
      )

  listed :
      (ds : List Dirent) (start : ℤ) (count : ℕ)
      → Listed reclen copy ds start count (
          filled_or
            (skip 0 start ds).1
            (fill reclen copy (skip 0 start ds).0 0 count (skip 0 start ds).1))
  listed ds start count =
      let (passed, same, at, passes) = skip-Passes 0 start ds in
      let (taken, rest, split, out, fits, full) =
        fill-Prefix reclen copy lens (skip 0 start ds).0 0 count (skip 0 start ds).1
          (omega arith) in
      let here : fill reclen copy (skip 0 start ds).0 0 count (skip 0 start ds).1
          ≡ records copy (name_bytes passed) taken =
        out ∙ ap (λ i. records copy i taken) (at ∙ omega arith) in
      (
        passed,
        taken,
        rest,
        same ∙ ap (λ (l : List Dirent). passed ++ l) split,
        subst (Passes 0 start passed) split passes,
        omega (arith, fits, ap length here),
        subst (λ n. Full reclen n count rest) (omega (arith, ap length here)) full,
        ap (λ l. filled_or l (fill reclen copy (skip 0 start ds).0 0 count (skip 0 start ds).1))
              split
            ∙ ap (filled_or (taken ++ rest)) here
            ∙ filled_or-outcome (name_bytes passed) taken rest,
      )

-- creat_dirent64 and creat_dirent, for every directory, offset and size of the buffer: the entries
-- split into those that are passed over, each of which stands in front of the offset while the next
-- one does not, those that are taken, and a rest. The records of the taken ones are the result, they
-- are no longer than the buffer, and the rest is empty or its first entry does not fit behind them.
-- Nothing is returned at the end of the directory, and EINVAL where not even one entry fits.
pub creat_dirent-Listed :
    (ds : List Dirent) (start : ℤ) (count : ℕ)
    → Listed reclen64 dirent64 ds start count (creat_dirent64 ds start count)
      × Listed reclen32 dirent32 ds start count (creat_dirent ds start count)
unfolding creat_dirent64 creat_dirent
creat_dirent-Listed ds start count = (
  listed reclen64 dirent64 length-dirent64 (λ d. ground arith) ds start count,
  listed reclen32 dirent32 length-dirent32 (λ d. ground arith) ds start count,
)
