-- ===== src/Task/Pending.antt =====
-- The signals that reach a stopped process: they are queued (process_signal) and sent again
-- (deliver_pending_signals of okfs_signal.c).
use okfs.Base.{
  ℕ, zero, suc, ◌+◌, ◌<◌, ◌≤◌, ◌≡◌, refl, ap, ◌∙◌, Bool, true, false, not, ◌&&◌, none, some, List,
  ◌∷◌, ◌==◌, ltb, leb, if◌then◌else◌, arith,
}
use okfs.Memory.{Ptrace}
use okfs.Task.{SigSet, sigdelset, sigunpause, Task, Kill, Okfs, put_task, current}
use okfs.Task.Signals.{stopping_sig, deliver_from, delivered, deliver_pending_signals}
use okfs.Task.Store.{current-same, current-put_task}

-- Whether a stopped task keeps the signal for later.
abbrev pub kept : ℕ → Bool
kept sig = not (sig == sigunpause) && not (stopping_sig sig)

-- The signals of a set from i + n - 1 down to i, each sent to the task, in front of others.
pub sent : (pid i n : ℕ) → SigSet → List Kill → List Kill
sent pid i zero mask kills = kills
sent pid i (suc n) mask kills =
    if mask i
    then sent pid (suc i) n mask (record { pid = pid; sig = i } ∷ kills)
    else sent pid (suc i) n mask kills

pub sent_same :
    (pid i n : ℕ) (mask mask' : SigSet) (kills kills' : List Kill)
    → ((j : ℕ) → mask j ≡ mask' j)
    → kills ≡ kills'
    → sent pid i n mask kills ≡ sent pid i n mask' kills'
unfolding sent
sent_same pid i zero mask mask' kills kills' same e = e
sent_same pid i (suc n) mask mask' kills kills' same e =
    go (mask i) (mask' i) (same i)
      (sent_same pid (suc i) n mask mask' (record { pid = pid; sig = i } ∷ kills)
        (record { pid = pid; sig = i } ∷ kills') same
        (ap (λ ks. record { pid = pid; sig = i } ∷ ks) e))
      (sent_same pid (suc i) n mask mask' kills kills' same e)
  where
    go :
        (b b' : Bool)
        → b ≡ b'
        → sent pid (suc i) n mask (record { pid = pid; sig = i } ∷ kills)
          ≡ sent pid (suc i) n mask' (record { pid = pid; sig = i } ∷ kills')
        → sent pid (suc i) n mask kills ≡ sent pid (suc i) n mask' kills'
        → (if b
            then sent pid (suc i) n mask (record { pid = pid; sig = i } ∷ kills)
            else sent pid (suc i) n mask kills)
          ≡ (if b'
              then sent pid (suc i) n mask' (record { pid = pid; sig = i } ∷ kills')
              else sent pid (suc i) n mask' kills')
    go true true h x y = x
    go false false h x y = y
    go true false h x y = cc
    go false true h x y = cc

module _ {P : Ptrace} where
  -- deliver_from with the mask left out
  deliver_from-sent :
      (i n : ℕ) (t : Task P) (kills : List Kill)
      → (mask : SigSet) → ((j : ℕ) → i ≤ j → t.sigpending_mask j ≡ mask j)
      → (deliver_from i n t kills).1 ≡ sent t.pid i n mask kills
  unfolding deliver_from sent
  deliver_from-sent i zero t kills mask same = refl
  deliver_from-sent i (suc n) t kills mask same =
      go (t.sigpending_mask i) (mask i) (same i (omega arith))
        (λ k.
          deliver_from-sent (suc i) n (record t { sigpending_mask = sigdelset i t.sigpending_mask })
            k mask (λ j h. ground (arith, same j)))
        (deliver_from-sent (suc i) n t kills mask (λ j h. same j (omega arith)))
    where
      go :
          (a b : Bool)
          → a ≡ b
          → ((k : List Kill)
              → (deliver_from
                  (suc i)
                  n
                  (record t { sigpending_mask = sigdelset i t.sigpending_mask })
                  k).1
                ≡ sent t.pid (suc i) n mask k)
          → (deliver_from (suc i) n t kills).1 ≡ sent t.pid (suc i) n mask kills
          → (if a
              then deliver_from
                  (suc i)
                  n
                  (record t { sigpending_mask = sigdelset i t.sigpending_mask })
                  (record { pid = t.pid; sig = i } ∷ kills)
              else deliver_from (suc i) n t kills).1
            ≡ (if b
                then sent t.pid (suc i) n mask (record { pid = t.pid; sig = i } ∷ kills)
                else sent t.pid (suc i) n mask kills)
      go true true e r r' = r (record { pid = t.pid; sig = i } ∷ kills)
      go false false e r r' = r'
      go true false e r r' = cc
      go false true e r r' = cc

  -- What deliver_from leaves in the set
  deliver_from-mask :
      (i n : ℕ) (t : Task P) (kills : List Kill) (j : ℕ)
      → (deliver_from i n t kills).0.sigpending_mask j
        ≡ (t.sigpending_mask j && not (leb i j && ltb j (i + n)))
  unfolding deliver_from
  deliver_from-mask i zero t kills j = ground arith
  deliver_from-mask i (suc n) t kills j =
      go (t.sigpending_mask i) refl
        (deliver_from-mask (suc i) n (record t { sigpending_mask = sigdelset i t.sigpending_mask })
          (record { pid = t.pid; sig = i } ∷ kills) j)
        (deliver_from-mask (suc i) n t kills j)
    where
      here : (b : Bool) → t.sigpending_mask i ≡ b → j ≡ i → t.sigpending_mask j ≡ b
      here b e h = ap t.sigpending_mask h ∙ e

      t' : Task P
      t' = record t { sigpending_mask = sigdelset i t.sigpending_mask }

      go :
          (b : Bool)
          → t.sigpending_mask i ≡ b
          → (deliver_from (suc i) n t' (record { pid = t.pid; sig = i } ∷ kills)).0.sigpending_mask
              j
            ≡ (sigdelset i t.sigpending_mask j && not (leb (suc i) j && ltb j (suc i + n)))
          → (deliver_from (suc i) n t kills).0.sigpending_mask j
            ≡ (t.sigpending_mask j && not (leb (suc i) j && ltb j (suc i + n)))
          → (if b
                then deliver_from (suc i) n t' (record { pid = t.pid; sig = i } ∷ kills)
                else deliver_from (suc i) n t kills).0.sigpending_mask
              j
            ≡ (t.sigpending_mask j && not (leb i j && ltb j (i + suc n)))
      go true e r r' = r ∙ ground (arith, here true e)
      go false e r r' = r' ∙ ground (arith, here false e)

  -- It changes nothing else of the task.
  deliver_from-rest :
      (i n : ℕ) (t : Task P) (kills : List Kill)
      → (deliver_from i n t kills).0
        ≡ record t { sigpending_mask = (deliver_from i n t kills).0.sigpending_mask }
  unfolding deliver_from
  deliver_from-rest i zero t kills = refl
  deliver_from-rest i (suc n) t kills =
      go (t.sigpending_mask i)
        (deliver_from-rest (suc i) n (record t { sigpending_mask = sigdelset i t.sigpending_mask })
          (record { pid = t.pid; sig = i } ∷ kills))
        (deliver_from-rest (suc i) n t kills)
    where
      t' : Task P
      t' = record t { sigpending_mask = sigdelset i t.sigpending_mask }

      then_ : Bool → Task P × List Kill
      then_ b =
          if b
          then deliver_from (suc i) n t' (record { pid = t.pid; sig = i } ∷ kills)
          else deliver_from (suc i) n t kills

      go :
          (b : Bool)
          → (deliver_from (suc i) n t' (record { pid = t.pid; sig = i } ∷ kills)).0 ≡ record t {
            sigpending_mask =
                (deliver_from
                  (suc i)
                  n
                  t'
                  (record { pid = t.pid; sig = i } ∷ kills)).0.sigpending_mask;
          }
          → (deliver_from (suc i) n t kills).0
            ≡ record t { sigpending_mask = (deliver_from (suc i) n t kills).0.sigpending_mask }
          → (then_ b).0 ≡ record t { sigpending_mask = (then_ b).0.sigpending_mask }
      go true r r' = r
      go false r r' = r'

  delivered-sent :
      (n : ℕ) (s : Okfs P) (t : Task P)
      → current s ≡ some t
      → ((delivered n s t).kills ≡ sent t.pid 1 n t.sigpending_mask s.kills)
        × (mask : SigSet) × (current (delivered n s t) ≡ some (record t { sigpending_mask = mask }))
        × ((i : ℕ) → 0 < i → i < 1 + n → mask i ≡ false)
        × ((i : ℕ) → n < i → mask i ≡ t.sigpending_mask i)
  unfolding delivered
  delivered-sent n s t h =
      let t' = (deliver_from 1 n t s.kills).0 in
      (
        deliver_from-sent 1 n t s.kills t.sigpending_mask (λ j k. refl),
        t'.sigpending_mask,
        current-same (delivered n s t) (put_task t.pid t' s) refl refl
            ∙ current-put_task s t t' h
                (ap (λ (u : Task P). u.pid) (deliver_from-rest 1 n t s.kills))
            ∙ ap some (deliver_from-rest 1 n t s.kills),
        λ i l u. ground (arith, deliver_from-mask 1 n t s.kills i),
        λ i l. ground (arith, deliver_from-mask 1 n t s.kills i),
      )

  -- deliver_pending_signals sends the current task each of its queued signals once, in the order of
  -- their numbers, if that is from 1 to 63, and takes them off the queue; nothing else of the task
  -- changes.
  pub deliver_pending_signals-sent :
      (s : Okfs P) (t : Task P)
      → current s ≡ some t
      → (s' : Okfs P) × (deliver_pending_signals s ≡ some s')
        × (s'.kills ≡ sent t.pid 1 63 t.sigpending_mask s.kills)
        × (mask : SigSet) × (current s' ≡ some (record t { sigpending_mask = mask }))
        × ((i : ℕ) → 0 < i → i < 64 → mask i ≡ false)
        × ((i : ℕ) → 63 < i → mask i ≡ t.sigpending_mask i)
  unfolding deliver_pending_signals
  deliver_pending_signals-sent s t h =
      let (kills, mask, now, gone, stay) = delivered-sent 63 s t h in
      (
        delivered 63 s t,
        ap (λ o. elim o [ none ↦ none | some u ↦ some (delivered 63 s u) ]) h,
        kills,
        mask,
        now,
        λ i l u. gone i l (omega arith),
        stay,
      )
