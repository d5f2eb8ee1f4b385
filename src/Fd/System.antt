-- ===== src/Fd/System.antt =====
-- All traced tasks together: any sequence of system calls on descriptors keeps every file counted.
use mathlib.Core.Path.{subst}
use mathlib.Core.Option.{some-injective}
use okfs.Base.{
  Option-cases, ℕ, ◌+◌, ◌<◌, ◌≡◌, ◌≢◌, refl, sym, ap, ◌∙◌, inl, inr, Option, none, some, List, [],
  ◌∷◌, ◌++◌, CString, length, arith,
}
use okfs.Base.Int.{ℤ, pos}
use okfs.Fd.{
  OkfsFile, Files, FdTable, Fds, slot, add_new_fd, close_fd, dup, dup2, inherit, after_execve,
  close_all,
}
use okfs.Fd.Counts.{refs, count, Counted}
use okfs.Fd.Moves.{close_fd-Counted, add_new_fd-Counted, dup-Counted, dup2-Counted}
use okfs.Fd.Loops.{inherit-Counted, after_execve-Counted, close_all-Counted}

-- The store of files, and the table of every traced task that has not ended.
pub record Tasks : Type 0 where
  pub files : Files
  pub tables : List FdTable

unfoldable pub refs_all : ℕ → List FdTable → ℕ
refs_all p [] = 0
refs_all p (t ∷ ts) = refs p t.fd_tab + refs_all p ts

-- The state of one task, with its descriptors taken from a list of tasks.
abbrev focus : Files → FdTable → Fds
focus files t = record { files = files; table = t }

-- A system call that changes the descriptors of one task, as the handlers run it. What the system
-- gives out is below OPEN_MAX, the size of the table, and not in use, and Malloc gives memory that
-- holds no file.
pub data Call : Fds → Fds → Type 0 where
  opens :
      (s : Fds) (fresh osfd : ℕ) (fsp : Option ℕ) (fsfd : ℤ) (path : CString)
      (rel_path : Option CString) (ino : Option ℕ)
      → osfd < length s.table.fd_tab
      → slot s.table.fd_tab osfd ≡ none
      → s.files fresh ≡ none
      → Call s (add_new_fd fresh fsp osfd fsfd path rel_path ino s)
  closes :
      (s s' : Fds) (fd p : ℕ)
      → slot s.table.fd_tab fd ≡ some p
      → close_fd fd s ≡ some s'
      → Call s s'
  dups :
      (s s' : Fds) (oldfd newfd p : ℕ) (r : ℤ)
      → slot s.table.fd_tab oldfd ≡ some p
      → slot s.table.fd_tab newfd ≡ none
      → newfd < length s.table.fd_tab
      → dup (length s.table.fd_tab) oldfd (pos newfd) s ≡ some (s', r)
      → Call s s'
  dups2 :
      (s s' : Fds) (oldfd newfd p : ℕ) (r : ℤ)
      → slot s.table.fd_tab oldfd ≡ some p
      → newfd < length s.table.fd_tab
      → oldfd ≢ newfd
      → dup2 (length s.table.fd_tab) (pos oldfd) (pos newfd) s ≡ some (s', r)
      → Call s s'
  execs : (s s' : Fds) → after_execve (length s.table.fd_tab) s ≡ some s' → Call s s'

-- A step of the whole: a call of one task, a fork, whose child is put first, or the end of a task.
pub data Step : Tasks → Tasks → Type 0 where
  calls :
      (before after : List FdTable) (s s' : Fds)
      → Call s s'
      → Step
          (record { files = s.files; tables = before ++ s.table ∷ after })
          (record { files = s'.files; tables = before ++ s'.table ∷ after })
  forks :
      (before after : List FdTable) (s : Fds) (files : Files) (child : FdTable)
      → inherit s ≡ some (files, child)
      → Step
          (record { files = s.files; tables = before ++ s.table ∷ after })
          (record { files = files; tables = child ∷ (before ++ s.table ∷ after) })
  ends :
      (before after : List FdTable) (s s' : Fds)
      → close_all (length s.table.fd_tab) s ≡ some s'
      → Step
          (record { files = s.files; tables = before ++ s.table ∷ after })
          (record { files = s'.files; tables = before ++ after })

pub data Reach (s : Tasks) : Tasks → Type 0 where
  here : Reach s s
  next : {t u : Tasks} → Reach s t → Step t u → Reach s u

-- Each file counts the descriptors of all tasks, and a file that is there is used.
pub record AllCounted (s : Tasks) : Type 0 where
  pub exact : (p : ℕ) → count (s.files p) ≡ refs_all p s.tables
  pub used : (p : ℕ) (f : OkfsFile) → s.files p ≡ some f → 0 < f.nshared

refs_all-middle :
    (p : ℕ) (before after : List FdTable) (t : FdTable)
    → refs_all p (before ++ t ∷ after) ≡ refs p t.fd_tab + refs_all p (before ++ after)
unfolding refs_all
refs_all-middle p [] after t = refl
refs_all-middle p (u ∷ before) after t = omega (arith, refs_all-middle p before after t)

-- The view of one task, and back.
focused :
    (before after : List FdTable) (s : Fds)
    → AllCounted (record { files = s.files; tables = before ++ s.table ∷ after })
    → Counted (λ p. refs_all p (before ++ after)) s
focused before after s c = record {
  exact = λ p. omega (arith, c.exact p, refs_all-middle p before after s.table);
  used = c.used;
}

gathered :
    (before after : List FdTable) (s : Fds)
    → Counted (λ p. refs_all p (before ++ after)) s
    → AllCounted (record { files = s.files; tables = before ++ s.table ∷ after })
gathered before after s c = record {
  exact = λ p. omega (arith, c.exact p, refs_all-middle p before after s.table);
  used = c.used;
}

pub Call-Counted : (others : ℕ → ℕ) {s s' : Fds} → Call s s' → Counted others s → Counted others s'
Call-Counted others (opens s fresh osfd fsp fsfd path rel ino lt free new) c =
    (add_new_fd-Counted others s fresh osfd fsp fsfd path rel ino c lt free new).0
Call-Counted others (closes s s' fd p e runs) c =
    let (t, runs', c', slots) = close_fd-Counted others s fd p c e in
    subst (Counted others) (some-injective _ _ (sym runs' ∙ runs)) c'
Call-Counted others (dups s s' oldfd newfd p r e free lt runs) c =
    let (t, runs', c', slots) =
      dup-Counted others s (length s.table.fd_tab) oldfd newfd p c refl e free lt in
    subst (Counted others) (ap (λ (x : Fds × ℤ). x.0) (some-injective _ _ (sym runs' ∙ runs))) c'
Call-Counted others (dups2 s s' oldfd newfd p r e lt ne runs) c =
    let (t, runs', c', slots) =
      dup2-Counted others s (length s.table.fd_tab) oldfd newfd p c refl e lt ne in
    subst (Counted others) (ap (λ (x : Fds × ℤ). x.0) (some-injective _ _ (sym runs' ∙ runs))) c'
Call-Counted others (execs s s' runs) c =
    let (t, runs', c', slots) = after_execve-Counted others (length s.table.fd_tab) s c refl in
    subst (Counted others) (some-injective _ _ (sym runs' ∙ runs)) c'

forked :
    (before after : List FdTable) (files1 : Files) (table : FdTable) (files : Files)
    (child : FdTable)
    → Counted
        (λ p. refs p table.fd_tab + refs_all p (before ++ after))
        (record { files = files1; table = table })
    → ◌≡◌ {A = Files × FdTable} (files1, table) (files, child)
    → AllCounted (record { files = files; tables = child ∷ (before ++ table ∷ after) })
unfolding refs_all
forked before after files1 table files child c same =
    subst
      (λ (x : Files × FdTable).
        AllCounted (record { files = x.0; tables = x.1 ∷ (before ++ table ∷ after) }))
      same
      (record {
        exact = λ p. omega (arith, c.exact p, refs_all-middle p before after table);
        used = c.used;
      })

ended :
    (before after : List FdTable) (s1 s' : Fds)
    → Counted (λ p. refs_all p (before ++ after)) s1
    → ((p : ℕ) → count (s1.files p) ≡ refs_all p (before ++ after))
    → s1 ≡ s'
    → AllCounted (record { files = s'.files; tables = before ++ after })
ended before after s1 s' c counts same =
    subst (λ (x : Fds). AllCounted (record { files = x.files; tables = before ++ after })) same
      (record { exact = counts; used = c.used })

Step-AllCounted : {s t : Tasks} → Step s t → AllCounted s → AllCounted t
unfolding refs_all
Step-AllCounted (calls before after s s' call) c =
    gathered before after s' (Call-Counted _ call (focused before after s c))
Step-AllCounted (forks before after s files child runs) c =
    let (files1, runs1, c1) = inherit-Counted _ s (focused before after s c) in
    let same = some-injective _ _ (sym runs1 ∙ runs) in
    forked before after files1 s.table files child c1 same
Step-AllCounted (ends before after s s' runs) c =
    let (s1, runs1, c1, gone, counts) =
      close_all-Counted _ (length s.table.fd_tab) s (focused before after s c) refl in
    ended before after s1 s' c1 counts (some-injective _ _ (sym runs1 ∙ runs))

-- However the tasks open, close, duplicate and inherit descriptors, execute programs and end, in any
-- order, from a counted state on: the count of a file is the number of descriptors of all tasks that
-- point at it, a descriptor never points at a freed file, and a file without a descriptor is freed.
pub Reach-AllCounted :
    {s t : Tasks}
    → AllCounted s
    → Reach s t
    → ((p : ℕ) → count (t.files p) ≡ refs_all p t.tables)
      × ((p : ℕ) → 0 < refs_all p t.tables → (f : OkfsFile) × (t.files p ≡ some f))
      × ((p : ℕ) → refs_all p t.tables ≡ 0 → t.files p ≡ none)
Reach-AllCounted {t = t} c r =
    let kept = all_counted c r in
    (
      kept.exact,
      λ p more. elim (Option-cases (t.files p)) [
        | inl freed ↦ absurd (omega (arith, kept.exact p, ap count freed))
        | inr found ↦ found
      ],
      λ p no. elim (Option-cases (t.files p)) [
        | inl freed ↦ freed
        | inr (f, e) ↦ absurd (omega (arith, kept.exact p, kept.used p f e, ap count e))
      ],
    )
  where
    all_counted : {s t : Tasks} → AllCounted s → Reach s t → AllCounted t
    all_counted c here = c
    all_counted c (next r step) = Step-AllCounted step (all_counted c r)
