-- ===== src/Task/Store.antt =====
-- The list of tasks as a store: a task that is put in place of the current one is found again.
use okfs.Base.{
  ℕ, ◌≡◌, refl, sym, ap, ◌∙◌, Bool, true, false, Option, none, some, List, [], ◌∷◌, ◌==◌, is_some,
  if◌then◌else◌, arith,
}
use okfs.Memory.{Ptrace}
use okfs.Task.{Task, Okfs, find_slave, set_task, put_task, current}

module _ {P : Ptrace} where
  -- find_slave finds a task of that pid.
  pub find_slave-pid :
      (pid : ℕ) (ts : List (Task P)) (t : Task P) → find_slave pid ts ≡ some t → t.pid ≡ pid
  unfolding find_slave
  find_slave-pid pid [] t h = cc
  find_slave-pid pid (u ∷ ts) t h = ground (arith, find_slave-pid pid ts t)

  -- A store to the task that find_slave finds
  pub find_slave-set_task :
      (pid : ℕ) (ts : List (Task P)) (t t' : Task P)
      → find_slave pid ts ≡ some t
      → t'.pid ≡ pid
      → find_slave pid (set_task pid t' ts) ≡ some t'
  unfolding find_slave set_task
  find_slave-set_task pid [] t t' h e = cc
  find_slave-set_task pid (u ∷ ts) t t' h e = ground (arith, find_slave-set_task pid ts t t')

  -- It leaves every pid that was listed on the list.
  pub set_task-keeps :
      (pid q : ℕ) (ts : List (Task P)) (t' : Task P)
      → t'.pid ≡ pid
      → is_some (find_slave q (set_task pid t' ts)) ≡ is_some (find_slave q ts)
  unfolding find_slave set_task
  set_task-keeps pid q [] t' e = refl
  set_task-keeps pid q (v ∷ ts) t' e = go (v.pid == pid) refl (set_task-keeps pid q ts t' e)
    where
      go :
          (b : Bool)
          → (v.pid == pid) ≡ b
          → is_some (find_slave q (set_task pid t' ts)) ≡ is_some (find_slave q ts)
          → is_some (find_slave q (if b then t' ∷ ts else v ∷ set_task pid t' ts))
            ≡ is_some (if v.pid == q then some v else find_slave q ts)
      go true h rest = ground arith
      go false h rest = ground arith

  pub current-pid : (s : Okfs P) (t : Task P) → current s ≡ some t → s.slave ≡ some t.pid
  unfolding current
  current-pid s t h = go s.slave h
    where
      go :
          (o : Option ℕ)
          → (elim o [ none ↦ none | some pid ↦ find_slave pid s.tasks ]) ≡ some t
          → o ≡ some t.pid
      go none h' = cc
      go (some pid) h' = ap some (sym (find_slave-pid pid s.tasks t h'))

  pub find-current :
      (s : Okfs P) (t : Task P) → current s ≡ some t → find_slave t.pid s.tasks ≡ some t
  unfolding current
  find-current s t h =
      sym (ap (λ o. elim o [ none ↦ none | some pid ↦ find_slave pid s.tasks ]) (current-pid s t h))
      ∙ h

  -- What was stored to the current task is what the task is.
  pub current-put_task :
      (s : Okfs P) (t t' : Task P)
      → current s ≡ some t
      → t'.pid ≡ t.pid
      → current (put_task t.pid t' s) ≡ some t'
  unfolding current
  current-put_task s t t' h e =
      ap (λ o. elim o [ none ↦ none | some pid ↦ find_slave pid (set_task t.pid t' s.tasks) ])
        (current-pid s t h)
      ∙ find_slave-set_task t.pid s.tasks t t' (find-current s t h) e

  pub current-same :
      (s s' : Okfs P) → s.tasks ≡ s'.tasks → s.slave ≡ s'.slave → current s ≡ current s'
  unfolding current
  current-same s s' h e =
      ap (λ o. elim o [ none ↦ none | some pid ↦ find_slave pid s.tasks ]) e
      ∙ ap (λ ts. elim s'.slave [ none ↦ none | some pid ↦ find_slave pid ts ]) h
