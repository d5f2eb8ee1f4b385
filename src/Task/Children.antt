-- ===== src/Task/Children.antt =====
-- Which child a wait call of a parent gets (before_wait of control.c), told from outside.
use okfs.Base.{
  sym, ◌+◌, Option, ℕ, zero, suc, ◌<◌, ◌≡◌, refl, ap, ◌∙◌, inl, inr, Bool, true, false, some, List,
  [], ◌∷◌, ==_iff, Bool-cases, if◌then◌else◌, arith,
}
use okfs.Base.Int.{ℤ, pos, negsuc, neg}
use okfs.Memory.{Ptrace}
use okfs.Task.{State, running, stopped, zombie, stopped_and_notified, Task, find_slave}
use okfs.Task.Wait.{
  Found, stopped_child, zombie_child, no_news, no_child, wuntraced, waited_for, report, search,
}

-- A child without news is better than no child.
abbrev pub or_no_news : Found → Found
or_no_news (stopped_child p) = stopped_child p
or_no_news zombie_child = zombie_child
or_no_news no_news = no_news
or_no_news no_child = no_news

or_no_news_twice : (f : Found) → or_no_news (or_no_news f) ≡ or_no_news f
or_no_news_twice (stopped_child p) = refl
or_no_news_twice zombie_child = refl
or_no_news_twice no_news = refl
or_no_news_twice no_child = refl

module _ {P : Ptrace} where
  -- The tasks that a list of children names
  pub data Children (tasks : List (Task P)) : List ℕ → List (Task P) → Type 0 where
    last : Children tasks [] []
    also :
        (cp : ℕ) (p : Task P) (rest : List ℕ) (ps : List (Task P))
        → find_slave cp tasks ≡ some p
        → Children tasks rest ps
        → Children tasks (cp ∷ rest) (p ∷ ps)

  -- The children that the first argument of wait4() asks for: -1 for any, 0 for the caller's group, a
  -- pid for that child, and another negative number for that group. A group is what `gid` holds.
  pub data Selects (pid : ℤ) (gid : ℕ) (p : Task P) : Type 0 where
    any : pid ≡ neg 1 → Selects pid gid p
    own_group : pid ≡ pos 0 → p.gid ≡ gid → Selects pid gid p
    one : pid ≡ pos p.pid → 0 < p.pid → Selects pid gid p
    group : pid ≡ neg p.gid → 1 < p.gid → Selects pid gid p

  -- A child that there is something to tell of, and what
  pub data News (options : ℕ) (p : Task P) : Found → Type 0 where
    ended : p.state ≡ zombie → News options p zombie_child
    stops : p.state ≡ stopped → wuntraced options ≡ true → News options p (stopped_child p.pid)

  pub data Silent (options : ℕ) (p : Task P) : Type 0 where
    still_runs : p.state ≡ running → Silent options p
    told : p.state ≡ stopped_and_notified → Silent options p
    not_asked : p.state ≡ stopped → wuntraced options ≡ false → Silent options p

  -- What a wait call gets of its children in their order
  pub data Outcome (pid : ℤ) (gid options : ℕ) : List (Task P) → Found → Type 0 where
    none_left : Outcome pid gid options [] no_child
    pass_over :
        (p : Task P) (ps : List (Task P)) (f : Found)
        → ¬ (Selects pid gid p)
        → Outcome pid gid options ps f
        → Outcome pid gid options (p ∷ ps) f
    tells :
        (p : Task P) (ps : List (Task P)) (f : Found)
        → Selects pid gid p
        → News options p f
        → Outcome pid gid options (p ∷ ps) f
    silent :
        (p : Task P) (ps : List (Task P)) (f : Found)
        → Selects pid gid p
        → Silent options p
        → Outcome pid gid options ps f
        → Outcome pid gid options (p ∷ ps) (or_no_news f)

  selects : (pid : ℤ) (gid : ℕ) (p : Task P) → waited_for pid gid p ≡ true → Selects pid gid p
  selects (pos zero) gid p h = own_group refl ((==_iff p.gid gid).0 h)
  selects (pos (suc n)) gid p h =
      let k : suc n ≡ p.pid = omega (arith, (==_iff p.pid (suc n)).0 h) in
      one (ap pos k) (omega (arith, k))
  selects (negsuc zero) gid p h = any refl
  selects (negsuc (suc n)) gid p h =
      let k : suc (suc n) ≡ p.gid = omega (arith, (==_iff p.gid (n + 2)).0 h) in
      group (ap neg k) (omega (arith, k))

  chosen_one : (gid n : ℕ) (p : Task P) → 0 < n → p.pid ≡ n → waited_for (pos n) gid p ≡ true
  chosen_one gid zero p l e = absurd (omega arith)
  chosen_one gid (suc n) p l e = (==_iff p.pid (suc n)).1 e

  chosen_group : (gid n : ℕ) (p : Task P) → 1 < n → p.gid ≡ n → waited_for (neg n) gid p ≡ true
  chosen_group gid zero p l e = absurd (omega arith)
  chosen_group gid (suc zero) p l e = absurd (omega arith)
  chosen_group gid (suc (suc n)) p l e = (==_iff p.gid (n + 2)).1 (e ∙ omega arith)

  chosen : (pid : ℤ) (gid : ℕ) (p : Task P) → Selects pid gid p → waited_for pid gid p ≡ true
  chosen pid gid p (any e) = rw e refl
  chosen pid gid p (own_group e same) = rw e ((==_iff p.gid gid).1 same)
  chosen pid gid p (one e some_pid) = rw e (chosen_one gid p.pid p some_pid refl)
  chosen pid gid p (group e large) = rw e (chosen_group gid p.gid p large refl)

  passes : (pid : ℤ) (gid : ℕ) (p : Task P) → waited_for pid gid p ≡ false → ¬ (Selects pid gid p)
  passes pid gid p h s = cc (chosen pid gid p s, h)

  -- The loop with its flag, which makes a child without news of none
  abbrev Finds :
      (pid : ℤ) (gid options : ℕ) (children : List (Task P)) (flag : Bool) → Option Found → Type 0
  Finds pid gid options children flag o =
      (f : Found) × (o ≡ some (if flag then or_no_news f else f))
      × Outcome pid gid options children f

  report-Finds :
      (pid : ℤ) (gid options : ℕ) (p : Task P) (ps : List (Task P)) (flag : Bool) (f : Found)
      → Selects pid gid p
      → Outcome pid gid options ps f
      → (st : State) → p.state ≡ st
      → Finds pid gid options (p ∷ ps) flag (report options p.pid st (some (or_no_news f)))
  report-Finds pid gid options p ps true f s h running e =
      (or_no_news f, ap some (sym (or_no_news_twice f)), silent p ps f s (still_runs e) h)
  report-Finds pid gid options p ps false f s h running e =
      (or_no_news f, refl, silent p ps f s (still_runs e) h)
  report-Finds pid gid options p ps true f s h stopped_and_notified e =
      (or_no_news f, ap some (sym (or_no_news_twice f)), silent p ps f s (told e) h)
  report-Finds pid gid options p ps false f s h stopped_and_notified e =
      (or_no_news f, refl, silent p ps f s (told e) h)
  report-Finds pid gid options p ps true f s h zombie e =
      (zombie_child, refl, tells p ps zombie_child s (ended e))
  report-Finds pid gid options p ps false f s h zombie e =
      (zombie_child, refl, tells p ps zombie_child s (ended e))
  report-Finds pid gid options p ps flag f s h stopped e = elim (Bool-cases (wuntraced options)) [
    | inl asks ↦ (
      stopped_child p.pid,
      rw asks (either flag),
      tells p ps (stopped_child p.pid) s (stops e asks),
    )
    | inr quiet ↦ (or_no_news f, rw quiet (once flag), silent p ps f s (not_asked e quiet) h)
  ]
    where
      either :
          (b : Bool)
          → some (stopped_child p.pid)
            ≡ some (if b then or_no_news (stopped_child p.pid) else stopped_child p.pid)
      either true = refl
      either false = refl

      once :
          (b : Bool)
          → some (or_no_news f) ≡ some (if b then or_no_news (or_no_news f) else or_no_news f)
      once true = ap some (sym (or_no_news_twice f))
      once false = refl

  search-Finds :
      (pid : ℤ) (gid options : ℕ) (tasks : List (Task P)) (childp : List ℕ)
      (children : List (Task P)) (flag : Bool)
      → Children tasks childp children
      → Finds pid gid options children flag (search pid gid options tasks childp flag)
  unfolding search
  search-Finds pid gid options tasks _ _ true last = (no_child, refl, none_left)
  search-Finds pid gid options tasks _ _ false last = (no_child, refl, none_left)
  search-Finds pid gid options tasks _ _ flag (also cp p rest ps found c) =
      elim (Bool-cases (waited_for pid gid p)) [
        | inl mine ↦
            let (f, runs, h) = search-Finds pid gid options tasks rest ps true c in
            rw (found, search, mine, runs)
              (report-Finds pid gid options p ps flag f (selects pid gid p mine) h p.state refl)
        | inr other ↦
            let (f, runs, h) = search-Finds pid gid options tasks rest ps flag c in
            (f, rw (found, search, other) runs, pass_over p ps f (passes pid gid p other) h)
      ]

  -- Where every child of the list is a traced task, the loop of before_wait comes to its end with
  -- what wait4() tells of the children in their order: children that the first argument does not ask
  -- for are passed over; the first of the others that has ended, or is stopped and not yet told of
  -- with WUNTRACED in the options, is what it finds; else that there is a child asked for, or none.
  -- A group of processes is the number that the field gid of the tasks holds, into which OKFS
  -- writes getgid() and not the process group.
  pub search-Outcome :
      (pid : ℤ) (gid options : ℕ) (tasks : List (Task P)) (childp : List ℕ)
      (children : List (Task P))
      → Children tasks childp children
      → (f : Found) × (search pid gid options tasks childp false ≡ some f)
        × Outcome pid gid options children f
  search-Outcome pid gid options tasks childp children c =
      search-Finds pid gid options tasks childp children false c
