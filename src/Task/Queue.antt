-- ===== src/Task/Queue.antt =====
-- A stopped process under the main loop of okfs.c: any signals but SIGCONT reach it, and
-- deliver_pending_signals runs before the process goes on.
use okfs.Base.{
  ℕ, ◌<◌, ◌≡◌, refl, ◌∙◌, Bool, true, false, not, ◌&&◌, ◌||◌, ◌⊎◌, inl, inr, Option, none, some,
  List, [], ◌∷◌, ◌==◌, Bool-cases, arith,
}
use okfs.Memory.{Ptrace}
use okfs.Task.{stopped_task, SigSet, sigaddset, sigunpause, Task, Okfs, put_task, current}
use okfs.Task.Signals.{sigcont, stopping_sig, deliver_pending_signals, process_signal}
use okfs.Task.Store.{current-put_task}
use okfs.Task.Pending.{kept, sent, sent_same, deliver_pending_signals-sent}

-- None of the signals is SIGCONT.
abbrev pub no_cont : List ℕ → Bool
no_cont [] = true
no_cont (sig ∷ sigs) = not (sig == sigcont) && no_cont sigs

-- No process is left to run by the signals: each is answered with 0.
abbrev pub all_zero : List ℕ → Bool
all_zero [] = true
all_zero (r ∷ rs) = r == 0 && all_zero rs

-- The queue after some signals, seen from outside: what was there, and every one of them that is kept.
pub queued : List ℕ → SigSet → SigSet
queued [] mask i = mask i
queued (sig ∷ sigs) mask i = queued sigs mask i || kept sig && i == sig

-- What was in the queue at first stays in it.
queued_more :
    (sigs : List ℕ) (mask mask' : SigSet) (b : Bool) (i : ℕ)
    → mask i ≡ (mask' i || b)
    → queued sigs mask i ≡ (queued sigs mask' i || b)
unfolding queued
queued_more [] mask mask' b i h = h
queued_more (sig ∷ sigs) mask mask' b i h = ground (arith, queued_more sigs mask mask' b i h)

module _ {P : Ptrace} (open_max : ℕ) where
  -- Some signals in a row to the current task, with what process_signal returned for each.
  unfoldable pub process_all : ℕ → List ℕ → Okfs P → Option (List ℕ × Okfs P)
  unfolding process_signal
  process_all status [] s = some ([], s)
  process_all status (sig ∷ sigs) s = elim (process_signal open_max sig status s) [
    | none ↦ none
    | some r ↦ elim (process_all status sigs r.1) [
      | none ↦ none
      | some rs ↦ some (r.0 ∷ rs.0, rs.1)
    ]
  ]

  -- One signal but SIGCONT to a stopped task: it returns 0, and at most the queue has changed.
  keeps_stopped :
      (sig status : ℕ) (s : Okfs P) (t : Task P)
      → current s ≡ some t
      → stopped_task t.state ≡ true
      → (sig == sigcont) ≡ false
      → (s' : Okfs P) × (process_signal open_max sig status s ≡ some (0, s'))
        × (mask : SigSet) × (current s' ≡ some (record t { sigpending_mask = mask }))
        × ((i : ℕ) → mask i ≡ (t.sigpending_mask i || kept sig && i == sig))
        × (s'.kills ≡ s.kills)
  unfolding process_signal
  keeps_stopped sig status s t h st c =
      go (Bool-cases (sig == sigunpause)) (Bool-cases (stopping_sig sig))
    where
      Goal : Type 0
      Goal =
          (s' : Okfs P) × (process_signal open_max sig status s ≡ some (0, s'))
          × (mask : SigSet) × (current s' ≡ some (record t { sigpending_mask = mask }))
          × ((i : ℕ) → mask i ≡ (t.sigpending_mask i || kept sig && i == sig))
          × (s'.kills ≡ s.kills)

      go :
          ((sig == sigunpause) ≡ true) ⊎ ((sig == sigunpause) ≡ false)
          → (stopping_sig sig ≡ true) ⊎ (stopping_sig sig ≡ false)
          → Goal
      go (inl u) g = (s, rw (u, process_signal) refl, t.sigpending_mask, h, λ i. ground arith, refl)
      go (inr u) (inl g) = (
        s,
        rw (u, process_signal, h, st, c, g) refl,
        t.sigpending_mask,
        h,
        λ i. ground arith,
        refl,
      )
      go (inr u) (inr g) =
          let mask = sigaddset sig t.sigpending_mask in
          (
            put_task t.pid (record t { sigpending_mask = mask }) s,
            rw (u, process_signal, h, st, c, g) refl,
            mask,
            current-put_task s t (record t { sigpending_mask = mask }) h refl,
            λ i. ground arith,
            refl,
          )

  process_all-cons :
      (sig : ℕ) (sigs : List ℕ) (status : ℕ) (s s1 : Okfs P) (r : List ℕ × Okfs P)
      → process_signal open_max sig status s ≡ some (0, s1)
      → process_all status sigs s1 ≡ some r
      → process_all status (sig ∷ sigs) s ≡ some (0 ∷ r.0, r.1)
  unfolding process_all
  process_all-cons sig sigs status s s1 r e rest = rw (e, process_all, rest)

  all_queued :
      (sigs : List ℕ) (status : ℕ) (s : Okfs P) (t : Task P)
      → current s ≡ some t
      → stopped_task t.state ≡ true
      → no_cont sigs ≡ true
      → (r : List ℕ × Okfs P) × (process_all status sigs s ≡ some r)
        × (all_zero r.0 ≡ true)
        × (mask : SigSet) × (current r.1 ≡ some (record t { sigpending_mask = mask }))
        × ((i : ℕ) → mask i ≡ queued sigs t.sigpending_mask i)
        × ((r.1).kills ≡ s.kills)
  unfolding process_all queued
  all_queued [] status s t h st c = (([], s), refl, refl, t.sigpending_mask, h, λ i. refl, refl)
  all_queued (sig ∷ sigs) status s t h st c =
      let (s1, one, mask1, now1, same1, kills1) =
        keeps_stopped sig status s t h st (ground arith) in
      let (r, rest, zeros, mask2, now2, same2, kills2) =
        all_queued sigs status s1 (record t { sigpending_mask = mask1 }) now1 st (ground arith) in
      (
        (0 ∷ r.0, r.1),
        process_all-cons sig sigs status s s1 r one rest,
        zeros,
        mask2,
        now2,
        λ i. same2 i ∙ queued_more sigs mask1 t.sigpending_mask (kept sig && i == sig) i (same1 i),
        kills2 ∙ kills1,
      )

  -- For any list of signals without SIGCONT, to a stopped current task: no signal is passed on to it
  -- and none is sent, the task stays stopped, and its queue becomes what it was with the signals of
  -- the list that are neither stopping signals nor SIGUNPAUSE, which are dropped; a signal that comes
  -- twice is in it once. deliver_pending_signals, which does not ask whether the task is stopped,
  -- then sends it each queued signal from 1 to 63 once, in the order of the numbers, and takes it off
  -- the queue; those above 63, the real-time signal 64, are not sent and stay in the queue. Nothing
  -- else of the task changes, so it is still stopped.
  pub deliver_pending_signals-process_all :
      (sigs : List ℕ) (status : ℕ) (s : Okfs P) (t : Task P)
      → current s ≡ some t
      → stopped_task t.state ≡ true
      → no_cont sigs ≡ true
      → (r : List ℕ × Okfs P) × (process_all status sigs s ≡ some r)
        × (all_zero r.0 ≡ true)
        × ((r.1).kills ≡ s.kills)
        × (s' : Okfs P) × (deliver_pending_signals r.1 ≡ some s')
        × (s'.kills ≡ sent t.pid 1 63 (queued sigs t.sigpending_mask) s.kills)
        × (mask : SigSet) × (current s' ≡ some (record t { sigpending_mask = mask }))
        × ((i : ℕ) → 0 < i → i < 64 → mask i ≡ false)
        × ((i : ℕ) → 63 < i → mask i ≡ queued sigs t.sigpending_mask i)
  deliver_pending_signals-process_all sigs status s t h st c =
      let (r, runs, zeros, mask, now, same, kills) = all_queued sigs status s t h st c in
      let (s', sends, kills', mask', now', gone, stay) =
        deliver_pending_signals-sent r.1 (record t { sigpending_mask = mask }) now in
      (
        r,
        runs,
        zeros,
        kills,
        s',
        sends,
        kills'
            ∙ sent_same t.pid 1 63 mask (queued sigs t.sigpending_mask) (r.1).kills s.kills same
                kills,
        mask',
        now',
        gone,
        λ i l. stay i l ∙ same i,
      )
