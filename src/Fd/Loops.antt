-- ===== src/Fd/Loops.antt =====
-- The loops over all descriptors: fork, execve and the end of a process.
use okfs.Base.{
  ℕ, zero, suc, ◌+◌, ◌<◌, ◌≤◌, ◌≡◌, ◌≢◌, refl, ap, ◌∙◌, ◌⊎◌, inl, inr, Bool, true, false, ◌&&◌,
  Option, none, some, List, [], ◌∷◌, ◌==◌, leb, ltb, if◌then◌else◌, length, set, arith, Bool-cases,
  Option-cases,
}
use okfs.Fd.{
  OkfsFile, Files, store, Fds, slot, close_fd, share, close_if_open, share_all, inherit, flag_at,
  close_from, after_execve, close_all,
}
use okfs.Fd.Counts.{refs, count, Counted}
use okfs.Fd.Moves.{close_if_open-Counted}

-- The files that a table names are there.
abbrev Enough : List (Option ℕ) → Files → Type 0
Enough l files = (p : ℕ) → refs p l ≤ count (files p)

abbrev InUse : Files → Type 0
InUse files = (p : ℕ) (f : OkfsFile) → files p ≡ some f → 0 < f.nshared

share-ok :
    (files : Files) (p : ℕ)
    → 0 < count (files p)
    → InUse files
    → (files' : Files) × (share p files ≡ some files')
      × ((q : ℕ) → count (files' q) ≡ count (files q) + (if p == q then 1 else 0))
      × InUse files'
unfolding share
share-ok files p h u = elim (Option-cases (files p)) [
  | inl freed ↦ absurd (omega (arith, ap count freed))
  | inr (f, e) ↦ (
    store files p (some (record f { nshared = f.nshared + 1 })),
    ground (arith, e),
    λ q. ground (arith, e, ap files {x = q} {y = p}),
    λ q g. ground (arith, u q g),
  )
]

share_all-ok :
    (l : List (Option ℕ)) (files : Files)
    → Enough l files
    → InUse files
    → (files' : Files) × (share_all l files ≡ some files')
      × ((q : ℕ) → count (files' q) ≡ count (files q) + refs q l)
      × InUse files'
unfolding share_all refs
share_all-ok [] files n u = (files, refl, λ q. omega arith, u)
share_all-ok (none ∷ l) files n u =
    let (files', runs, counts, u') = share_all-ok l files (λ q. omega (arith, n q)) u in
    (files', runs, λ q. omega (arith, counts q), u')
share_all-ok (some p ∷ l) files n u =
    let here : 0 < count (files p) = ground (arith, n p) in
    let (files1, runs1, counts1, u1) = share-ok files p here u in
    let (files2, runs2, counts2, u2) =
      share_all-ok l files1 (λ q. ground (arith, n q, counts1 q)) u1 in
    (files2, ground (arith, runs1, runs2), λ q. omega (arith, counts1 q, counts2 q), u2)

-- add_slave gives the child all descriptors of the parent, and the counts are right for both: seen
-- from either of the two tasks, the other one's descriptors are counted among the others.
pub inherit-Counted :
    (others : ℕ → ℕ) (s : Fds)
    → Counted others s
    → (files : Files) × (inherit s ≡ some (files, s.table))
      × Counted (λ p. refs p s.table.fd_tab + others p) (record { files = files; table = s.table })
unfolding inherit
inherit-Counted others s c =
    let (files, runs, counts, u) =
      share_all-ok s.table.fd_tab s.files (λ p. omega (arith, c.exact p)) c.used in
    (
      files,
      ground (arith, runs),
      record { exact = λ p. omega (arith, counts p, c.exact p); used = u },
    )

-- A test of flags that closing another descriptor does not change.
abbrev Local : (List Bool → ℕ → Bool) → Type 0
Local only = (l : List Bool) (fd j : ℕ) → j ≢ fd → only (set l fd false) j ≡ only l j

close_if_open-flags :
    (s s' : Fds) (fd : ℕ)
    → close_if_open fd s ≡ some s'
    → (s'.table.close_on_exec ≡ s.table.close_on_exec)
      ⊎ (s'.table.close_on_exec ≡ set s.table.close_on_exec fd false)
unfolding close_if_open close_fd
close_if_open-flags s s' fd e = ground arith

-- A table with no open descriptor refers to nothing.
refs-none : (p : ℕ) (l : List (Option ℕ)) → ((j : ℕ) → slot l j ≡ none) → refs p l ≡ 0
unfolding refs
refs-none p [] h = refl
refs-none p (o ∷ l) h = ground (arith, h 0, refs-none p l (λ j. h (suc j)))

step_closes :
    (only : List Bool → ℕ → Bool)
    → Local only
    → (others : ℕ → ℕ) (s : Fds) (fd : ℕ) → Counted others s
    → (s' : Fds) × ((if only s.table.close_on_exec fd then close_if_open fd s else some s)
        ≡ some s')
      × Counted others s'
      × ((j : ℕ)
          → slot s'.table.fd_tab j
            ≡ (if j == fd && only s.table.close_on_exec fd then none else slot s.table.fd_tab j))
      × ((j : ℕ) → j ≢ fd → only s'.table.close_on_exec j ≡ only s.table.close_on_exec j)
      × (length s'.table.fd_tab ≡ length s.table.fd_tab)
step_closes only loc others s fd c = elim (Bool-cases (only s.table.close_on_exec fd)) [
  | inr keep ↦ (s, rw keep, c, λ j. ground (arith, keep), λ j ne. refl, refl)
  | inl drop ↦
      let (s', runs, counted, slots, len) = close_if_open-Counted others s fd c in
      (
        s',
        rw drop runs,
        counted,
        λ j. ground (arith, drop, slots j),
        λ j ne. same s' (close_if_open-flags s s' fd runs) j ne,
        len,
      )
]
  where
    same :
        (s' : Fds)
        → (s'.table.close_on_exec ≡ s.table.close_on_exec)
          ⊎ (s'.table.close_on_exec ≡ set s.table.close_on_exec fd false)
        → (j : ℕ) → j ≢ fd
        → only s'.table.close_on_exec j ≡ only s.table.close_on_exec j
    same s' (inl e) j ne = ap (λ l. only l j) e
    same s' (inr e) j ne = ap (λ l. only l j) e ∙ loc s.table.close_on_exec fd j ne

-- The loop over the n descriptors from fd on.
close_from-closes :
    (only : List Bool → ℕ → Bool)
    → Local only
    → (others : ℕ → ℕ) (n : ℕ) (s : Fds) (fd : ℕ) → Counted others s
    → (s' : Fds) × (close_from only fd n s ≡ some s')
      × Counted others s'
      × ((j : ℕ)
          → slot s'.table.fd_tab j ≡ (
              if leb fd j && ltb j (fd + n) && only s.table.close_on_exec j
              then none
              else slot s.table.fd_tab j))
unfolding close_from
close_from-closes only loc others zero s fd c = (s, refl, c, λ j. ground arith)
close_from-closes only loc others (suc n) s fd c =
    let (s1, runs1, c1, slots1, flags1, len1) = step_closes only loc others s fd c in
    let (s2, runs2, c2, slots2) = close_from-closes only loc others n s1 (fd + 1) c1 in
    (
      s2,
      ground (arith, runs1, runs2),
      c2,
      λ j.
          ground
            (arith, slots1 j, slots2 j, flags1 j, ap (only s.table.close_on_exec) {x = j} {y = fd}),
    )

flag_at-Local : Local flag_at
flag_at-Local [] fd j ne = refl
flag_at-Local (b ∷ l) zero zero ne = absurd (ne refl)
flag_at-Local (b ∷ l) zero (suc j) ne = refl
flag_at-Local (b ∷ l) (suc fd) zero ne = refl
flag_at-Local (b ∷ l) (suc fd) (suc j) ne = flag_at-Local l fd j (omega arith)

slot_beyond : (l : List (Option ℕ)) (j : ℕ) → length l ≤ j → slot l j ≡ none
slot_beyond [] j h = refl
slot_beyond (o ∷ l) zero h = absurd (omega arith)
slot_beyond (o ∷ l) (suc j) h = slot_beyond l j (omega arith)

-- A successful execve closes exactly the descriptors that have their close_on_exec flag, and keeps
-- the counts right.
pub after_execve-Counted :
    (others : ℕ → ℕ) (open_max : ℕ) (s : Fds)
    → Counted others s
    → length s.table.fd_tab ≡ open_max
    → (s' : Fds) × (after_execve open_max s ≡ some s')
      × Counted others s'
      × ((j : ℕ)
          → slot s'.table.fd_tab j
            ≡ (if flag_at s.table.close_on_exec j then none else slot s.table.fd_tab j))
unfolding after_execve
after_execve-Counted others open_max s c len =
    let (s', runs, counted, slots) =
      close_from-closes flag_at flag_at-Local others open_max s 0 c in
    (s', runs, counted, λ j. ground (arith, slots j, slot_beyond s.table.fd_tab j))

-- The end of a process closes all its descriptors, and the counts of the other tasks' files are
-- right without it.
pub close_all-Counted :
    (others : ℕ → ℕ) (open_max : ℕ) (s : Fds)
    → Counted others s
    → length s.table.fd_tab ≡ open_max
    → (s' : Fds) × (close_all open_max s ≡ some s')
      × Counted others s'
      × ((j : ℕ) → slot s'.table.fd_tab j ≡ none)
      × ((p : ℕ) → count (s'.files p) ≡ others p)
unfolding close_all
close_all-Counted others open_max s c len =
    let (s', runs, counted, slots) =
      close_from-closes (λ l fd. true) (λ l fd j ne. refl) others open_max s 0 c in
    let gone = λ (j : ℕ). slots j ∙ all_gone j in
    (s', runs, counted, gone, λ p. omega (arith, counted.exact p, refs-none p s'.table.fd_tab gone))
  where
    all_gone :
        (j : ℕ)
        → (if leb 0 j && ltb j (0 + open_max) && true then none else slot s.table.fd_tab j) ≡ none
    all_gone j = ground (arith, slot_beyond s.table.fd_tab j)
