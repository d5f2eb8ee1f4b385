-- ===== src/Fd/Moves.antt =====
-- Closing, duplicating and inheriting descriptors keeps the counts of the files, and never touches a
-- file that is freed.
use okfs.Base.{
  ℕ, ◌+◌, ◌<◌, ◌≡◌, ◌≢◌, refl, ap, ◌∙◌, inl, inr, false, Option, none, some, ◌==◌, if◌then◌else◌,
  CString, length, set, arith, Option-cases, length-set,
}
use okfs.Base.Int.{ℤ, pos}
use okfs.Fd.{store, Fds, slot, add_new_fd, close_fd, do_dup, dup, close_if_open, dup2, fsfd_at}
use okfs.Fd.Counts.{Counted, slot-in, slot-set, open_file, Counted-store, close_fd-Closed}

-- okfs_close_fd of an open descriptor runs; the counts stay right, so the file is freed exactly with
-- its last descriptor, and only that descriptor is gone.
pub close_fd-Counted :
    (others : ℕ → ℕ) (s : Fds) (fd p : ℕ)
    → Counted others s
    → slot s.table.fd_tab fd ≡ some p
    → (s' : Fds) × (close_fd fd s ≡ some s')
      × Counted others s'
      × ((j : ℕ) → slot s'.table.fd_tab j ≡ (if j == fd then none else slot s.table.fd_tab j))
close_fd-Counted others s fd p c e =
    let d = close_fd-Closed others s fd p c e in
    (
      d.after,
      d.runs,
      d.counted,
      λ j.
          ap (λ l. slot l j) d.table
          ∙ slot-set s.table.fd_tab fd j none (slot-in s.table.fd_tab fd p e),
    )

-- add_new_fd at a free descriptor and at an address that holds no file keeps the counts right.
pub add_new_fd-Counted :
    (others : ℕ → ℕ) (s : Fds) (fresh osfd : ℕ) (fsp : Option ℕ) (fsfd : ℤ) (path : CString)
    (rel_path : Option CString) (ino : Option ℕ)
    → Counted others s
    → osfd < length s.table.fd_tab
    → slot s.table.fd_tab osfd ≡ none
    → s.files fresh ≡ none
    → let s' = add_new_fd fresh fsp osfd fsfd path rel_path ino s in
      Counted others s'
      × ((j : ℕ)
          → slot s'.table.fd_tab j ≡ (if j == osfd then some fresh else slot s.table.fd_tab j))
unfolding add_new_fd
add_new_fd-Counted others s fresh osfd fsp fsfd path rel_path ino c lt free none_yet = (
  Counted-store others s osfd fresh (some fresh) _ s.table.close_on_exec
      (set s.table.fsfd osfd fsfd) c lt (λ q ne. ground (arith, free))
      (ground (arith, free, none_yet)) (λ f h. ground arith),
  λ j. slot-set s.table.fd_tab osfd j (some fresh) lt,
)

pub do_dup-Counted :
    (others : ℕ → ℕ) (s : Fds) (oldfd newfd p : ℕ)
    → Counted others s
    → slot s.table.fd_tab oldfd ≡ some p
    → slot s.table.fd_tab newfd ≡ none
    → newfd < length s.table.fd_tab
    → (s' : Fds) × (do_dup oldfd newfd s ≡ some s')
      × Counted others s'
      × ((j : ℕ) → slot s'.table.fd_tab j ≡ (if j == newfd then some p else slot s.table.fd_tab j))
unfolding do_dup
do_dup-Counted others s oldfd newfd p c e free lt =
    let (f, g) = open_file others s oldfd p c e in
    let clo = set s.table.close_on_exec newfd false in
    let fsfd = set s.table.fsfd newfd (fsfd_at s.table.fsfd oldfd) in
    let f' = some (record f { nshared = f.nshared + 1 }) in
    (
      record {
        files = store s.files p f';
        table = record {
          fd_tab = set s.table.fd_tab newfd (some p);
          close_on_exec = clo;
          fsfd = fsfd;
        };
      },
      ground (arith, e, g),
      Counted-store others s newfd p (some p) f' clo fsfd c lt (λ q ne. ground (arith, free))
          (ground (arith, free, g)) (λ f2 h. ground arith),
      λ j. slot-set s.table.fd_tab newfd j (some p) lt,
    )

-- okfs_dup: after a dup of the system that gave a free descriptor below OPEN_MAX, the two descriptors
-- share the file, the counts are right and the process gets the new descriptor.
pub dup-Counted :
    (others : ℕ → ℕ) (s : Fds) (open_max oldfd newfd p : ℕ)
    → Counted others s
    → length s.table.fd_tab ≡ open_max
    → slot s.table.fd_tab oldfd ≡ some p
    → slot s.table.fd_tab newfd ≡ none
    → newfd < open_max
    → (s' : Fds) × (dup open_max oldfd (pos newfd) s ≡ some (s', pos newfd))
      × Counted others s'
      × ((j : ℕ) → slot s'.table.fd_tab j ≡ (if j == newfd then some p else slot s.table.fd_tab j))
unfolding dup
dup-Counted others s open_max oldfd newfd p c len e free lt =
    let (s', runs, counted, slots) = do_dup-Counted others s oldfd newfd p c e free (omega arith) in
    (s', ground (arith, runs), counted, slots)

pub close_if_open-Counted :
    (others : ℕ → ℕ) (s : Fds) (fd : ℕ)
    → Counted others s
    → (s' : Fds) × (close_if_open fd s ≡ some s')
      × Counted others s'
      × ((j : ℕ) → slot s'.table.fd_tab j ≡ (if j == fd then none else slot s.table.fd_tab j))
      × (length s'.table.fd_tab ≡ length s.table.fd_tab)
unfolding close_if_open
close_if_open-Counted others s fd c = elim (Option-cases (slot s.table.fd_tab fd)) [
  | inl free ↦ (
    s,
    ground (arith, free),
    c,
    λ j. ground (arith, free, ap (slot s.table.fd_tab) {x = j} {y = fd}),
    refl,
  )
  | inr (p, e) ↦
      let d = close_fd-Closed others s fd p c e in
      (
        d.after,
        ground (arith, e, d.runs),
        d.counted,
        λ j.
            ap (λ l. slot l j) d.table
            ∙ slot-set s.table.fd_tab fd j none (slot-in s.table.fd_tab fd p e),
        ap length d.table ∙ length-set s.table.fd_tab fd none,
      )
]

-- okfs_dup2 of an open descriptor to another one: what was open at the new one is closed, then both
-- share the file of the old one; the counts are right.
pub dup2-Counted :
    (others : ℕ → ℕ) (s : Fds) (open_max oldfd newfd p : ℕ)
    → Counted others s
    → length s.table.fd_tab ≡ open_max
    → slot s.table.fd_tab oldfd ≡ some p
    → newfd < open_max
    → oldfd ≢ newfd
    → (s' : Fds) × (dup2 open_max (pos oldfd) (pos newfd) s ≡ some (s', pos newfd))
      × Counted others s'
      × ((j : ℕ) → slot s'.table.fd_tab j ≡ (if j == newfd then some p else slot s.table.fd_tab j))
unfolding dup2
dup2-Counted others s open_max oldfd newfd p c len e lt ne =
    let (s1, runs1, c1, slots1, len1) = close_if_open-Counted others s newfd c in
    let e1 : slot s1.table.fd_tab oldfd ≡ some p = ground (arith, slots1 oldfd, e, ne) in
    let (s2, runs2, c2, slots2) =
      do_dup-Counted others s1 oldfd newfd p c1 e1 (ground (arith, slots1 newfd)) (omega arith) in
    (s2, ground (arith, runs1, runs2, e1), c2, λ j. ground (arith, slots1 j, slots2 j))

-- okfs_dup2 of an open descriptor to itself, which for the system changes nothing, closes it: the
-- process is told that it has the descriptor, and the table has lost it.
pub dup2-lost :
    (others : ℕ → ℕ) (s : Fds) (open_max fd p : ℕ)
    → Counted others s
    → slot s.table.fd_tab fd ≡ some p
    → fd < open_max
    → (s' : Fds) × (dup2 open_max (pos fd) (pos fd) s ≡ some (s', pos fd))
      × (slot s'.table.fd_tab fd ≡ none)
unfolding dup2
dup2-lost others s open_max fd p c e lt =
    let (s1, runs1, c1, slots1, len1) = close_if_open-Counted others s fd c in
    let gone : slot s1.table.fd_tab fd ≡ none = ground (arith, slots1 fd) in
    (s1, ground (arith, runs1, gone), gone)
