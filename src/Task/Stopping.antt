-- ===== src/Task/Stopping.antt =====
-- A process that is stopped and woken up again (stop_slave and wakeup_slave of okfs_signal.c,
-- change_slave_state of task.c).
use okfs.Base.{
  ℕ, ◌+◌, ◌<◌, ◌≡◌, refl, ap, ◌∙◌, Bool, true, false, Option, none, some, List, ◌==◌, is_some,
  if◌then◌else◌, arith,
}
use okfs.Fd.{Files}
use okfs.Memory.{Ptrace, Tracee, rpl_mem, restore_mem}
use okfs.Memory.Bytes.{IsBytes}
use okfs.Memory.Replace.{restore_mem-rpl_mem}
use okfs.Task.{
  sig_dfl, sigunpause, sigchld, kill, State, running, stopped, zombie, stopped_and_notified,
  is_zombie, stopped_task, Task, Okfs, find_slave, set_task, put_task, current, change_slave_state,
  close_fds, tell_parent,
}
use okfs.Task.Signals.{
  sigcont, stopping_sig, pause_code, tell_stopped, stop_slave, wakeup_slave, process_signal,
}
use okfs.Task.Store.{set_task-keeps, current-same, current-put_task}

stopping_other : (sig : ℕ) → stopping_sig sig ≡ true → (sig == sigunpause) ≡ false
stopping_other sig h = ground arith

pause_code-IsBytes : IsBytes pause_code
pause_code-IsBytes i = ground arith

module _ {P : Ptrace} (open_max : ℕ) where
  -- Whichever branch is taken, tasks and current task are those of `s`.
  either :
      (b : Bool) (s u : Okfs P)
      → u.tasks ≡ s.tasks
      → u.slave ≡ s.slave
      → (s' : Okfs P) × ((if b then some s else some u) ≡ some s')
        × (s'.tasks ≡ s.tasks)
        × (s'.slave ≡ s.slave)
  either true s u h e = (s, refl, refl, refl)
  either false s u h e = (u, refl, h, e)

  tell_parent-runs :
      (state : State) (t : Task P) (s : Okfs P)
      → is_zombie state ≡ false
      → (s' : Okfs P) × (tell_parent state t s ≡ some s')
        × (s'.tasks ≡ s.tasks)
        × (s'.slave ≡ s.slave)
  unfolding tell_parent
  tell_parent-runs running t s z = either (t.ppid == 1) s s refl refl
  tell_parent-runs stopped_and_notified t s z = either (t.ppid == 1) s s refl refl
  tell_parent-runs zombie t s z = cc
  tell_parent-runs stopped t s z = either (t.ppid == 1) s (kill t.ppid sigunpause s) refl refl

  keeps_fds :
      (state : State) (t : Task P) (files : Files)
      → is_zombie state ≡ false
      → close_fds open_max state t files ≡ some (files, t.table)
  unfolding close_fds
  keeps_fds state t files z = rw (z, close_fds)

  lives :
      (state : State) (w : ℕ) (s : Okfs P) (t : Task P)
      → is_zombie state ≡ false
      → current s ≡ some t
      → change_slave_state open_max state w s
        ≡ tell_parent state t (record s {
          tasks = set_task t.pid (record t { state = state; exit_code = w }) s.tasks;
        })
  unfolding change_slave_state
  lives state w s t z h = rw (h, change_slave_state, keeps_fds state t s.files z)

  -- A change to a state in which the task lives on
  pub change_slave_state-runs :
      (state : State) (w : ℕ) (s : Okfs P) (t : Task P)
      → is_zombie state ≡ false
      → current s ≡ some t
      → (s' : Okfs P) × (change_slave_state open_max state w s ≡ some s')
        × (s'.tasks ≡ set_task t.pid (record t { state = state; exit_code = w }) s.tasks)
        × (s'.slave ≡ s.slave)
  change_slave_state-runs state w s t z h =
      let (s', runs, tasks, same) =
        tell_parent-runs state t
          (record s { tasks = set_task t.pid (record t { state = state; exit_code = w }) s.tasks })
          z in
      (s', lives state w s t z h ∙ runs, tasks, same)

  -- tell_stopped goes on where the parent is traced.
  tell_stopped-runs :
      (ppid : ℕ) (s : Okfs P)
      → is_some (find_slave ppid s.tasks) ≡ true
      → (s' : Okfs P) × (tell_stopped ppid s ≡ some s')
        × (s'.tasks ≡ s.tasks)
        × (s'.slave ≡ s.slave)
  unfolding tell_stopped
  tell_stopped-runs ppid s h = go (find_slave ppid s.tasks) h
    where
      told : Bool → Okfs P
      told b = if b then s else kill ppid sigchld s

      go :
          (o : Option (Task P))
          → is_some o ≡ true
          → (s' : Okfs P) × ((elim o [
            | none ↦ none
            | some parent ↦ some (if parent.nocldstop then s else kill ppid sigchld s)
          ])
              ≡ some s')
            × (s'.tasks ≡ s.tasks)
            × (s'.slave ≡ s.slave)
      go none e = cc
      go (some parent) e =
          (told parent.nocldstop, refl, same parent.nocldstop, same' parent.nocldstop)
        where
          same : (b : Bool) → (told b).tasks ≡ s.tasks
          same true = refl
          same false = refl

          same' : (b : Bool) → (told b).slave ≡ s.slave
          same' true = refl
          same' false = refl

  -- The task after stop_slave
  abbrev stopped_at : Tracee P → ℕ → Task P → Task P
  stopped_at tracee status t = record t {
    tracee = tracee;
    save_regs = t.regs;
    state = stopped;
    exit_code = status;
  }

  stops :
      (status : ℕ) (s s' : Okfs P) (t : Task P) (tracee : Tracee P)
      → rpl_mem P t.tracee t.regs.eip pause_code 8 ≡ some tracee
      → change_slave_state open_max stopped status
          (put_task t.pid (record t { tracee = tracee; save_regs = t.regs }) s)
        ≡ some s'
      → stop_slave open_max status t s ≡ tell_stopped t.ppid s'
  unfolding stop_slave
  stops status s s' t tracee r e = rw (r, e, stop_slave)

  -- stop_slave of a task whose parent is traced
  pub stop_slave-runs :
      (status : ℕ) (s : Okfs P) (t : Task P) (tracee : Tracee P)
      → current s ≡ some t
      → is_some (find_slave t.ppid s.tasks) ≡ true
      → rpl_mem P t.tracee t.regs.eip pause_code 8 ≡ some tracee
      → (s' : Okfs P) × (stop_slave open_max status t s ≡ some s')
        × (current s' ≡ some (stopped_at tracee status t))
  stop_slave-runs status s t tracee h parent r =
      let t1 = record t { tracee = tracee; save_regs = t.regs } in
      let s1 = put_task t.pid t1 s in
      let h1 = current-put_task s t t1 h refl in
      let (s2, runs2, tasks2, slave2) = change_slave_state-runs stopped status s1 t1 refl h1 in
      let keeps = λ (u : Task P) (e : u.pid ≡ t.pid) (ts : List (Task P)).
        set_task-keeps t.pid t.ppid ts u e in
      let parent2 =
        ap (λ ts. is_some (find_slave t.ppid ts)) tasks2
        ∙ keeps (stopped_at tracee status t) refl s1.tasks
        ∙ keeps t1 refl s.tasks
        ∙ parent in
      let (s3, runs3, tasks3, slave3) = tell_stopped-runs t.ppid s2 parent2 in
      (
        s3,
        stops status s s2 t tracee r runs2 ∙ runs3,
        current-same s3 (put_task t.pid (stopped_at tracee status t) s1) (tasks3 ∙ tasks2)
              (slave3 ∙ slave2)
            ∙ current-put_task s1 t1 (stopped_at tracee status t) h1 refl,
      )

  -- The task after wakeup_slave
  abbrev woken : Tracee P → Task P → Task P
  woken tracee t = record t { tracee = tracee; cpu = t.save_regs; state = running; exit_code = 0 }

  pub wakeup_slave-runs :
      (s : Okfs P) (t : Task P) (tracee : Tracee P)
      → current s ≡ some t
      → restore_mem P t.tracee ≡ some tracee
      → (s' : Okfs P) × (wakeup_slave open_max t s ≡ some s') × (current s' ≡ some (woken tracee t))
  unfolding wakeup_slave
  wakeup_slave-runs s t tracee h r =
      let t1 = record t { tracee = tracee; cpu = t.save_regs } in
      let s1 = put_task t.pid t1 s in
      let h1 = current-put_task s t t1 h refl in
      let (s2, runs2, tasks2, slave2) = change_slave_state-runs running 0 s1 t1 refl h1 in
      (
        s2,
        rw (r, wakeup_slave) runs2,
        current-same s2 (put_task t.pid (woken tracee t) s1) tasks2 slave2
            ∙ current-put_task s1 t1 (woken tracee t) h1 refl,
      )

  -- A stopping signal with its default action, to a running task
  stops_by :
      (sig status : ℕ) (s s' : Okfs P) (t : Task P)
      → current s ≡ some t
      → stopped_task t.state ≡ false
      → stopping_sig sig ≡ true
      → t.sighandler sig ≡ sig_dfl
      → stop_slave open_max status t s ≡ some s'
      → process_signal open_max sig status s ≡ some (sig, s')
  unfolding process_signal
  stops_by sig status s s' t h st sg d e =
      rw (h, process_signal, st, sg, d, e, stopping_other sig sg) refl

  wakes_by :
      (status : ℕ) (s s' : Okfs P) (t : Task P)
      → current s ≡ some t
      → stopped_task t.state ≡ true
      → wakeup_slave open_max t s ≡ some s'
      → process_signal open_max sigcont status s ≡ some (sigcont, s')
  unfolding process_signal
  wakes_by status s s' t h st e = rw (h, process_signal, st, e) refl

  -- A stopping signal with its default action, for the current task that is not stopped, has no code
  -- replaced and has a traced parent: it is passed on, the task counts as stopped with the status,
  -- and the code where the task was at its last system call is the call of pause(). SIGCONT then
  -- sets it running with every byte of its memory as it was, the registers of its last system call,
  -- and no code replaced.
  pub wakeup_slave-stop_slave :
      (sig status status' : ℕ) (s : Okfs P) (t : Task P)
      → current s ≡ some t
      → stopped_task t.state ≡ false
      → stopping_sig sig ≡ true
      → t.sighandler sig ≡ sig_dfl
      → is_some (find_slave t.ppid s.tasks) ≡ true
      → t.tracee.rpl_code ≡ none
      → (s1 : Okfs P) × (process_signal open_max sig status s ≡ some (sig, s1))
        × (t1 : Task P) × (current s1 ≡ some t1)
        × (t1.state ≡ stopped)
        × (t1.exit_code ≡ status)
        × ((i : ℕ) → i < 8 → P.byte t1.tracee.mem (t.regs.eip + i) ≡ pause_code i)
        × (s2 : Okfs P) × (process_signal open_max sigcont status' s1 ≡ some (sigcont, s2))
        × (t2 : Task P) × (current s2 ≡ some t2)
        × (t2.state ≡ running)
        × (t2.cpu ≡ t.regs)
        × ((a : ℕ) → P.byte t2.tracee.mem a ≡ P.byte t.tracee.mem a)
        × (t2.tracee.rpl_code ≡ none)
  wakeup_slave-stop_slave sig status status' s t h st sg d parent free =
      let (tr1, replaced, code, tr2, restored, none2, bytes) =
        restore_mem-rpl_mem P t.tracee t.regs.eip 8 pause_code pause_code-IsBytes free in
      let (s1, stops1, current1) = stop_slave-runs status s t tr1 h parent replaced in
      let t1 = stopped_at tr1 status t in
      let (s2, wakes2, current2) = wakeup_slave-runs s1 t1 tr2 current1 restored in
      (
        s1,
        stops_by sig status s s1 t h st sg d stops1,
        t1,
        current1,
        refl,
        refl,
        code,
        s2,
        wakes_by status' s1 s2 t1 current1 refl wakes2,
        woken tr2 t1,
        current2,
        refl,
        refl,
        bytes,
        none2,
      )
