-- ===== src/Task/Loop.antt =====
-- The main loop of okfs.c: what OKFS does when wait() tells it of a traced process.
use okfs.Base.{ℕ, ◌/◌, ◌%◌, Bool, ◌&&◌, Option, none, some, ◌==◌, ltb, if◌then◌else◌}
use okfs.Base.Int.{ℤ, pos, negsuc, neg, is_zero}
use okfs.Memory.{Ptrace}
use okfs.Task.{
  NextCall, zombie, is_zombie, Task, Okfs, find_slave, set_task, put_task, current,
  change_slave_state,
}
use okfs.Task.Calls.{get_slave_args, set_slave_args, unimplemented_call}
use okfs.Task.Wait.{wifstopped}
use okfs.Task.Signals.{process_signal, deliver_pending_signals}

-- The table of entry.c with its size NR_syscalls, and the functions behind next_call.
pub record CallTable (P : Ptrace) : Type 0 where
  pub nr_syscalls : ℕ
  pub call_before : ℕ → Option (Okfs P → Option (Okfs P))
  pub call_after : ℕ → Option NextCall
  pub has_stack_args : ℕ → Bool
  pub run : NextCall → Okfs P → Option (Okfs P)

-- ERESTARTSYS
abbrev pub erestartsys : ℕ
erestartsys = 512

-- WSTOPSIG, WIFEXITED and WIFSIGNALED
abbrev pub wstopsig : ℕ → ℕ
wstopsig status = status / 256 % 256

abbrev pub wifexited : ℕ → Bool
wifexited status = status % 128 == 0

abbrev pub wifsignaled : ℕ → Bool
wifsignaled status = ltb 0 (status % 128) && ltb (status % 128) 127

-- WIFSYSCALL
abbrev pub wifsyscall : ℕ → Bool
wifsyscall status = status == 34175

module _ {P : Ptrace} (T : CallTable P) where
  open T use {nr_syscalls, call_before, call_after, has_stack_args, run}

  -- call[CALL_NR].has_stack_args where the number is one of the table but 0, else that of number 0
  abbrev pub stack_args : ℤ → Bool
  stack_args (pos n) = if ltb 0 n && ltb n nr_syscalls then has_stack_args n else has_stack_args 0
  stack_args (negsuc n) = has_stack_args 0

  -- The registers and the arguments, as handle_syscall reads them first
  unfoldable pub fetch : Task P → Task P
  unfolding get_slave_args
  fetch t = get_slave_args (stack_args t.cpu.orig_eax) (record t { regs = t.cpu })

  -- The first half of handle_syscall: the process enters a call. `none`: a number that the table does
  -- not have, as the entry is read from beyond it.
  unfoldable pub enter : Task P → Okfs P → Option (Okfs P)
  unfolding set_task unimplemented_call
  enter t s =
      let t' = record t { during_call = t.regs.orig_eax } in
      elim t.regs.orig_eax [
        | negsuc n ↦ none
        | pos n ↦
            if ltb nr_syscalls n
            then some (put_task t.pid (unimplemented_call t') s)
            else if n == nr_syscalls
            then none
            else elim (call_before n) [
              | none ↦ some (put_task t.pid (record t' { next_call = call_after n }) s)
              | some before ↦ before (put_task t.pid (record t' { next_call = call_after n }) s)
            ]
      ]

  -- slave->next_call = NULL
  unfoldable pub no_next_call : Okfs P → Option (Okfs P)
  unfolding current find_slave set_task
  no_next_call s = elim (current s) [
    | none ↦ none
    | some t ↦ some (put_task t.pid (record t { next_call = none }) s)
  ]

  -- The call is called again.
  unfoldable pub restarted : Task P → Task P
  unfolding set_slave_args
  restarted t =
      record (set_slave_args (record t {
        regs = record (t.regs) { orig_eax = t.restart_call; eax = neg erestartsys };
      })) { restart_call = pos 0 }

  -- The second half of handle_syscall: the process leaves the call.
  unfoldable pub leave : Task P → Okfs P → Option (Okfs P)
  unfolding set_task restarted no_next_call
  leave t s =
      let t' = record t {
        regs = record (t.regs) { orig_eax = t.during_call };
        during_call = pos 0;
      } in
      if is_zero t.restart_call
      then elim t.next_call [
        | none ↦ no_next_call (put_task t.pid t' s)
        | some f ↦ elim (run f (put_task t.pid t' s)) [ none ↦ none | some s' ↦ no_next_call s' ]
      ]
      else no_next_call (put_task t.pid (restarted t') s)

  -- handle_syscall
  unfoldable pub handle_syscall : Okfs P → Option (Okfs P)
  unfolding current find_slave fetch enter leave
  handle_syscall s = elim (current s) [
    | none ↦ none
    | some t ↦ if is_zero t.during_call then enter (fetch t) s else leave (fetch t) s
  ]

  -- check_status, with the signal for the next ptrace()
  unfoldable pub check_status : (open_max status : ℕ) → Okfs P → Option (ℕ × Okfs P)
  unfolding process_signal change_slave_state
  check_status open_max status s =
      if wifstopped status
      then process_signal open_max (wstopsig status) status s
      else if wifexited status
      then elim (change_slave_state open_max zombie status s) [
        | none ↦ none
        | some s' ↦ some (0, s')
      ]
      else if wifsignaled status
      then elim (change_slave_state open_max zombie status s) [
        | none ↦ none
        | some s' ↦ some (0, s')
      ]
      else some (0, s)

  -- The head of the loop of guard_slaves: the process goes on with what was queued for it.
  unfoldable pub go_on : Okfs P → Option (Okfs P)
  unfolding current find_slave deliver_pending_signals
  go_on s = elim (current s) [
    | none ↦ some s
    | some t ↦ if is_zombie t.state then some s else deliver_pending_signals s
  ]

  -- The body of the loop of guard_slaves behind wait(), which told of a status of a process: find_slave
  -- ends OKFS where it is no traced one. The number is the signal for the next ptrace().
  unfoldable pub guard_slave : (open_max pid status : ℕ) → Okfs P → Option (ℕ × Okfs P)
  unfolding find_slave handle_syscall check_status
  guard_slave open_max pid status s = elim (find_slave pid s.tasks) [
    | none ↦ none
    | some t ↦
        if wifsyscall status
        then elim (handle_syscall (record s { slave = some pid })) [
          | none ↦ none
          | some s' ↦ some (0, s')
        ]
        else check_status open_max status (record s { slave = some pid })
  ]
