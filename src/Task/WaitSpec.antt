-- ===== src/Task/WaitSpec.antt =====
-- What a parent gets from the wait calls of control.c.
use okfs.Base.{
  inl, inr, ℕ, zero, suc, ◌+◌, ◌/◌, ◌%◌, ◌^◌, ◌<◌, ◌≤◌, ◌⊎◌, ◌≡◌, refl, ap, ◌∙◌, Bool, true, false,
  none, some, List, [], ◌∷◌, ◌==◌, ==-refl, if◌then◌else◌, arith,
}
use okfs.Base.Int.{neg, ℤ, pos}
use okfs.Memory.{Ptrace, memset, word_byte}
use okfs.Memory.Bytes.{memset_exact}
use okfs.Task.{Regs, stopped_and_notified, Task, Okfs, find_slave, set_task, put_task, current}
use okfs.Task.Calls.{word_at, with_args, set_slave_args, set_slave_return}
use okfs.Task.Wait.{do_after_wait_isstopped, echild, no_news, search, notify, notify_of}
use okfs.Task.Store.{
  find_slave-pid, find_slave-set_task, current-pid, find-current, current-put_task,
}

below : (x : ℕ) → x % 256 < 256
below x = omega arith

module _ {P : Ptrace} where
  set_task-other :
      (q pid : ℕ) (ts : List (Task P)) (t' : Task P)
      → (q == pid) ≡ false
      → t'.pid ≡ pid
      → find_slave q (set_task pid t' ts) ≡ find_slave q ts
  unfolding find_slave set_task
  set_task-other q pid [] t' ne e = refl
  set_task-other q pid (u ∷ ts) t' ne e = go (u.pid == pid) refl (set_task-other q pid ts t' ne e)
    where
      go :
          (b : Bool)
          → (u.pid == pid) ≡ b
          → find_slave q (set_task pid t' ts) ≡ find_slave q ts
          → find_slave q (if b then t' ∷ ts else u ∷ set_task pid t' ts)
            ≡ (if u.pid == q then some u else find_slave q ts)
      go true h r = ground arith
      go false h r = ground arith

  current-other :
      (s : Okfs P) (t : Task P) (q : ℕ) (u : Task P)
      → current s ≡ some t
      → (q == t.pid) ≡ false
      → u.pid ≡ q
      → current (put_task q u s) ≡ some t
  unfolding current
  current-other s t q u h ne e =
      ap (λ o. elim o [ none ↦ none | some pid ↦ find_slave pid (set_task q u s.tasks) ])
        (current-pid s t h)
      ∙ set_task-other t.pid q s.tasks u (ground arith) e
      ∙ find-current s t h

  notify-runs :
      (s : Okfs P) (t c : Task P) (cp : ℕ)
      → t.stopped_child ≡ some cp
      → find_slave cp s.tasks ≡ some c
      → t.has_stack_args ≡ false
      → notify t s
        ≡ some (
            put_task t.pid
              (record t {
                tracee = record (t.tracee) {
                  mem = memset P t.tracee.mem (word_at t.arg 1) (word_byte c.exit_code) 4;
                };
                regs = with_args t.arg (record (t.regs) { eax = pos c.pid });
                cpu = with_args t.arg (record (t.regs) { eax = pos c.pid });
                has_stack_args = false;
              })
              (put_task cp (record c { state = stopped_and_notified }) s))
  unfolding notify notify_of set_slave_return set_slave_args
  notify-runs s t c cp st f in_regs =
      ap (λ o. elim o [ none ↦ none | some q ↦ notify_of q t s ]) st
      ∙ rw (f, notify_of, in_regs) refl

  -- A wait call for one child alone, which is stopped and reported already
  alone :
      (cp gid options : ℕ) (tasks : List (Task P)) (c : Task P)
      → find_slave cp tasks ≡ some c
      → c.state ≡ stopped_and_notified
      → c.pid ≡ cp
      → 0 < cp
      → search (pos cp) gid options tasks (cp ∷ []) false ≡ some no_news
  unfolding search
  alone zero gid options tasks c f st e l = absurd (omega arith)
  alone (suc n) gid options tasks c f st e l =
      rw (f, search, ap (λ x. x == suc n) e ∙ ==-refl (suc n), st) refl

  -- The tests of the return value in after_wait_isstopped
  notified :
      (fuel : ℕ) (ret : ℤ) (s : Okfs P) (t : Task P)
      → current s ≡ some t
      → (ret ≡ pos 0) ⊎ (ret ≡ neg echild)
      → do_after_wait_isstopped fuel ret s ≡ notify t s
  unfolding do_after_wait_isstopped
  notified fuel ret s t h (inl e) = rw (h, do_after_wait_isstopped, e) refl
  notified fuel ret s t h (inr e) = rw (h, do_after_wait_isstopped, e) refl

  -- after_wait_isstopped of a parent whose arguments are in registers, where the system returned 0 or
  -- ECHILD and the stopped child is a traced task with a pid above 0, other than the parent. The
  -- parent gets the child's pid, its status variable holds the child's status and no other byte of
  -- its memory changes. Of its registers eax is the pid, and the first five arguments are those that
  -- OKFS keeps for the call, in which before_wait has set WNOHANG; the others are as they were, and so
  -- is the rest of the task. The child is as it was but for its state, and the next wait call for
  -- that child alone finds no news, whatever its options.
  pub notify_lem :
      (fuel : ℕ) (ret : ℤ) (s : Okfs P) (t c : Task P) (cp : ℕ)
      → (ret ≡ pos 0) ⊎ (ret ≡ neg echild)
      → current s ≡ some t
      → t.stopped_child ≡ some cp
      → find_slave cp s.tasks ≡ some c
      → 0 < cp
      → (cp == t.pid) ≡ false
      → t.has_stack_args ≡ false
      → (s' : Okfs P) × (do_after_wait_isstopped fuel ret s ≡ some s')
        × (mem : P.Mem) × (regs : Regs) × (current s'
            ≡ some (record t {
              tracee = record (t.tracee) { mem = mem };
              regs = regs;
              cpu = regs;
              has_stack_args = false;
            }))
        × (regs ≡ record (t.regs) {
          eax = pos cp;
          ebx = word_at t.arg 0;
          ecx = word_at t.arg 1;
          edx = word_at t.arg 2;
          esi = word_at t.arg 3;
          edi = word_at t.arg 4;
        })
        × ((i : ℕ) → i < 4 → P.byte mem (word_at t.arg 1 + i) ≡ word_byte c.exit_code i)
        × ((a : ℕ)
            → (a < word_at t.arg 1) ⊎ (word_at t.arg 1 + 4 ≤ a)
            → P.byte mem a ≡ P.byte t.tracee.mem a)
        × (find_slave cp s'.tasks ≡ some (record c { state = stopped_and_notified }))
        × ((options gid : ℕ) → search (pos cp) gid options s'.tasks (cp ∷ []) false ≡ some no_news)
  notify_lem fuel ret s t c cp says h st f positive ne in_regs =
      let c' = record c { state = stopped_and_notified } in
      let s1 = put_task cp c' s in
      let mem = memset P t.tracee.mem (word_at t.arg 1) (word_byte c.exit_code) 4 in
      let r = with_args t.arg (record (t.regs) { eax = pos c.pid }) in
      let t2 = record t {
        tracee = record (t.tracee) { mem = mem };
        regs = r;
        cpu = r;
        has_stack_args = false;
      } in
      let s2 = put_task t.pid t2 s1 in
      let c'_pid = find_slave-pid cp s.tasks c f in
      let wrote =
        memset_exact P t.tracee.mem (word_at t.arg 1) (word_byte c.exit_code) 4
          (λ i. below (c.exit_code / 256 ^ i)) in
      let found =
        set_task-other cp t.pid s1.tasks t2 ne refl
        ∙ find_slave-set_task cp s.tasks c c' f c'_pid in
      (
        s2,
        notified fuel ret s t h says ∙ notify-runs s t c cp st f in_regs,
        mem,
        r,
        current-put_task s1 t t2 (current-other s t cp c' h ne c'_pid) refl,
        ap (λ n. with_args t.arg (record (t.regs) { eax = pos n })) c'_pid,
        wrote.0,
        wrote.1,
        found,
        λ options gid. alone cp gid options s2.tasks c' found refl c'_pid positive,
      )
