-- ===== src/Fd/Counts.antt =====
-- The count of a file is the number of descriptors that point at it, in all tasks.
use okfs.Base.{
  ℕ, zero, suc, ◌+◌, ◌-◌, ◌<◌, ◌≡◌, ◌≢◌, refl, ap, ◌∙◌, inl, inr, Bool, false, Option, none, some,
  List, [], ◌∷◌, ◌==◌, if◌then◌else◌, length, set, arith, Bool-cases, Option-cases,
}
use okfs.Base.Int.{ℤ}
use okfs.Fd.{OkfsFile, store, Fds, slot, close_fd}

-- Does a place of a table point at `p`?
abbrev pub hit : ℕ → Option ℕ → ℕ
hit p none = 0
hit p (some q) = if q == p then 1 else 0

-- How many descriptors of a table point at `p`.
unfoldable pub refs : ℕ → List (Option ℕ) → ℕ
refs p [] = 0
refs p (o ∷ l) = hit p o + refs p l

abbrev pub count : Option OkfsFile → ℕ
count none = 0
count (some f) = f.nshared

-- Every file is counted right, `others p` being the descriptors of other tasks that point at `p`,
-- and what has no descriptor is freed.
pub record Counted (others : ℕ → ℕ) (s : Fds) : Type 0 where
  pub exact : (p : ℕ) → count (s.files p) ≡ refs p s.table.fd_tab + others p
  pub used : (p : ℕ) (f : OkfsFile) → s.files p ≡ some f → 0 < f.nshared

pub refs-set :
    (p : ℕ) (l : List (Option ℕ)) (fd : ℕ) (v : Option ℕ)
    → fd < length l
    → refs p (set l fd v) + hit p (slot l fd) ≡ refs p l + hit p v
unfolding refs
refs-set p [] fd v h = elim h [ ]
refs-set p (o ∷ l) zero v h = omega arith
refs-set p (o ∷ l) (suc fd) v h = omega (arith, refs-set p l fd v (omega arith))

pub slot-in : (l : List (Option ℕ)) (fd p : ℕ) → slot l fd ≡ some p → fd < length l
slot-in [] fd p h = cc
slot-in (o ∷ l) zero p h = omega arith
slot-in (o ∷ l) (suc fd) p h = omega (arith, slot-in l fd p h)

-- An open descriptor is one reference.
pub refs-slot : (l : List (Option ℕ)) (fd p : ℕ) → slot l fd ≡ some p → 0 < refs p l
unfolding refs
refs-slot [] fd p h = cc
refs-slot (o ∷ l) zero p h = ground arith
refs-slot (o ∷ l) (suc fd) p h = omega (arith, refs-slot l fd p h)

pub slot-set :
    (l : List (Option ℕ)) (fd j : ℕ) (v : Option ℕ)
    → fd < length l
    → slot (set l fd v) j ≡ (if j == fd then v else slot l j)
slot-set [] fd j v h = elim h [ ]
slot-set (o ∷ l) zero zero v h = refl
slot-set (o ∷ l) zero (suc j) v h = ground arith
slot-set (o ∷ l) (suc fd) zero v h = ground arith
slot-set (o ∷ l) (suc fd) (suc j) v h = slot-set l fd j v (omega arith) ∙ ground arith

-- close_fd at an open descriptor of a counted state.
pub record Closed (others : ℕ → ℕ) (fd : ℕ) (s : Fds) : Type 0 where
  pub after : Fds
  pub runs : close_fd fd s ≡ some after
  pub counted : Counted others after
  pub table : after.table.fd_tab ≡ set s.table.fd_tab fd none

pub open_file :
    (others : ℕ → ℕ) (s : Fds) (fd p : ℕ)
    → Counted others s
    → slot s.table.fd_tab fd ≡ some p
    → (f : OkfsFile) × (s.files p ≡ some f)
open_file others s fd p c e = elim (Option-cases (s.files p)) [
  | inr h ↦ h
  | inl freed ↦ absurd (omega (arith, c.exact p, refs-slot s.table.fd_tab fd p e, ap count freed))
]

-- A state whose table changed at one place from `o` to `v`, and whose store changed only at `p`.
pub Counted-store :
    (others : ℕ → ℕ) (s : Fds) (fd p : ℕ) (v : Option ℕ) (f' : Option OkfsFile) (clo : List Bool)
    (fsfd : List ℤ)
    → Counted others s
    → fd < length s.table.fd_tab
    → ((q : ℕ) → q ≢ p → hit q (slot s.table.fd_tab fd) ≡ hit q v)
    → count f' + hit p (slot s.table.fd_tab fd) ≡ count (s.files p) + hit p v
    → ((f : OkfsFile) → f' ≡ some f → 0 < f.nshared)
    → Counted others (record {
      files = store s.files p f';
      table = record { fd_tab = set s.table.fd_tab fd v; close_on_exec = clo; fsfd = fsfd };
    })
Counted-store others s fd p v f' clo fsfd c lt same here live = record {
  exact = λ q. elim (Bool-cases (q == p)) [
    | inl it ↦
        let e : q ≡ p = ground arith in
        rw it (rw e (omega (arith, refs-set p s.table.fd_tab fd v lt, here, c.exact p)))
    | inr other ↦
        let ne : q ≢ p = ground arith in
        rw other (omega (arith, refs-set q s.table.fd_tab fd v lt, same q ne, c.exact q))
  ];
  used = λ q f h. elim (Bool-cases (q == p)) [
    | inl it ↦ live f (rw it at h)
    | inr other ↦ c.used q f (rw other at h)
  ];
}

pub close_fd-Closed :
    (others : ℕ → ℕ) (s : Fds) (fd p : ℕ)
    → Counted others s
    → slot s.table.fd_tab fd ≡ some p
    → Closed others fd s
unfolding close_fd
close_fd-Closed others s fd p c e =
    let (f, g) = open_file others s fd p c e in
    let live = c.used p f g in
    let f' = if f.nshared == 1 then none else some (record f { nshared = f.nshared - 1 }) in
    record {
      after = record {
        files = store s.files p f';
        table = record s.table {
          close_on_exec = set s.table.close_on_exec fd false;
          fd_tab = set s.table.fd_tab fd none;
        };
      };
      runs = ground (arith, e, g, live);
      counted =
          Counted-store others s fd p none f' (set s.table.close_on_exec fd false) s.table.fsfd c
            (slot-in s.table.fd_tab fd p e) (λ q ne. ground (arith, e)) (ground (arith, e, g, live))
            (λ f2 h. ground (arith, live));
      table = refl;
    }
