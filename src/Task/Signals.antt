-- ===== src/Task/Signals.antt =====
-- okfs_signal.c: what OKFS does with a signal that is about to reach a traced process.
use okfs.Base.{
  ℕ, zero, suc, ◌+◌, Bool, true, false, ◌||◌, ◌&&◌, not, ◌%◌, ◌-◌, Option, none, some, List, ◌∷◌,
  ◌==◌, if◌then◌else◌,
}
use okfs.Base.Int.{ℤ, is_neg}
use okfs.Memory.{Ptrace, load_word, memget, rpl_mem, restore_mem}
use okfs.Task.{
  running, stopped, stopped_task, SigHandler, sig_dfl, not_sig_dfl, sigaddset, sigdelset, sigchld,
  sigunpause, Task, Kill, Okfs, find_slave, set_task, put_task, current, kill, change_slave_state,
}

abbrev pub sigcont : ℕ
sigcont = 18

abbrev pub sigstop : ℕ
sigstop = 19

-- STOPPING_SIG: SIGSTOP, SIGTSTP, SIGTTIN, SIGTTOU
abbrev pub stopping_sig : ℕ → Bool
stopping_sig sig = sig == sigstop || sig == 20 || sig == 21 || sig == 22

-- _NSIG
abbrev pub nsig : ℕ
nsig = 64

abbrev is_dfl : SigHandler → Bool
is_dfl sig_dfl = true
is_dfl not_sig_dfl = false

-- The words 0x00001db8, 0x9080cd00 as bytes: a call of pause().
abbrev pub pause_code : ℕ → ℕ
pause_code i =
    if i == 0
    then 184
    else if i == 1
    then 29
    else if i == 5
    then 205
    else if i == 6
    then 128
    else if i == 7
    then 144
    else 0

module _ {P : Ptrace} where
  -- if ((parent = find_slave(slave->ppid)) && !parent->nocldstop) kill(slave->ppid, SIGCHLD):
  -- find_slave ends OKFS where there is no such task.
  unfoldable pub tell_stopped : ℕ → Okfs P → Option (Okfs P)
  unfolding find_slave
  tell_stopped ppid s = elim (find_slave ppid s.tasks) [
    | none ↦ none
    | some parent ↦ some (if parent.nocldstop then s else kill ppid sigchld s)
  ]

  -- stop_slave, for *slave
  unfoldable pub stop_slave : (open_max status : ℕ) → Task P → Okfs P → Option (Okfs P)
  unfolding set_task change_slave_state tell_stopped rpl_mem
  stop_slave open_max status t s = elim (rpl_mem P t.tracee t.regs.eip pause_code 8) [
    | none ↦ none
    | some tracee ↦
        elim (change_slave_state open_max stopped status
          (put_task t.pid (record t { tracee = tracee; save_regs = t.regs }) s)) [
            | none ↦ none
            | some s' ↦ tell_stopped t.ppid s'
          ]
  ]

  -- wakeup_slave, for *slave
  unfoldable pub wakeup_slave : (open_max : ℕ) → Task P → Okfs P → Option (Okfs P)
  unfolding set_task change_slave_state restore_mem
  wakeup_slave open_max t s = elim (restore_mem P t.tracee) [
    | none ↦ none
    | some tracee ↦
        change_slave_state open_max running 0
          (put_task t.pid (record t { tracee = tracee; cpu = t.save_regs }) s)
  ]

  -- The loop of deliver_pending_signals over the signals i, ..., i + n - 1
  unfoldable pub deliver_from : (i n : ℕ) → Task P → List Kill → Task P × List Kill
  deliver_from i zero t kills = (t, kills)
  deliver_from i (suc n) t kills =
      if t.sigpending_mask i
      then deliver_from (suc i) n (record t { sigpending_mask = sigdelset i t.sigpending_mask })
          (record { pid = t.pid; sig = i } ∷ kills)
      else deliver_from (suc i) n t kills

  -- The n first signals of deliver_pending_signals, for *slave
  unfoldable pub delivered : (n : ℕ) → Okfs P → Task P → Okfs P
  unfolding set_task deliver_from
  delivered n s t = record s {
    tasks = set_task t.pid (deliver_from 1 n t s.kills).0 s.tasks;
    kills = (deliver_from 1 n t s.kills).1;
  }

  -- deliver_pending_signals: the signals from 1 to _NSIG - 1
  unfoldable pub deliver_pending_signals : Okfs P → Option (Okfs P)
  unfolding current delivered
  deliver_pending_signals s = elim (current s) [
    | none ↦ none
    | some t ↦ some (delivered (nsig - 1) s t)
  ]

  -- process_signal, with the signal for the next ptrace()
  unfoldable pub process_signal : (open_max sig status : ℕ) → Okfs P → Option (ℕ × Okfs P)
  unfolding current find_slave set_task stop_slave wakeup_slave
  process_signal open_max sig status s =
      if sig == sigunpause then some (0, s) else elim (current s) [
        | none ↦ none
        | some t ↦
            if stopped_task t.state
            then (if sig == sigcont
                then elim (wakeup_slave open_max t s) [ none ↦ none | some s' ↦ some (sigcont, s') ]
                else if stopping_sig sig
                then some (0, s)
                else some (
                  0,
                  put_task t.pid (record t { sigpending_mask = sigaddset sig t.sigpending_mask }) s,
                ))
            else if stopping_sig sig
            then (if is_dfl (t.sighandler sig)
                then elim (stop_slave open_max status t s) [
                  | none ↦ none
                  | some s' ↦ some (sig, s')
                ]
                else some (sig, s))
            else some (sig, s)
      ]

  -- What after_rt_sigaction does: `sa_handler` and `sa_flags` are offsets in the structure of the
  -- given size, SIG_DFL is 0, and SA_NOCLDSTOP is bit 0 of the flags.
  unfoldable pub after_rt_sigaction :
      (sa_handler sa_flags sizeof_sigaction : ℕ)
      → (ret : ℤ) → (signum actp : ℕ) → Okfs P
      → Option (Okfs P)
  unfolding current find_slave set_task
  after_rt_sigaction sa_handler sa_flags size ret signum actp s =
      if is_neg ret || actp == 0 then some s else elim (current s) [
        | none ↦ none
        | some t ↦
            let act = memget P (λ i. 0) 0 t.tracee.mem actp size in
            let handler =
              if load_word (λ i. act (sa_handler + i)) == 0 then sig_dfl else not_sig_dfl in
            if stopping_sig signum
            then some (
                put_task t.pid
                  (record t { sighandler = λ i. if i == signum then handler else t.sighandler i })
                  s)
            else if signum == sigchld
            then some (put_task t.pid (record t { nocldstop = act sa_flags % 2 == 1 }) s)
            else some s
      ]

  -- after_sigaction reads struct old_sigaction the same way, but SIGSTOP ends OKFS.
  unfoldable pub after_sigaction :
      (sa_handler sa_flags sizeof_old_sigaction : ℕ)
      → (ret : ℤ) → (signum actp : ℕ) → Okfs P
      → Option (Okfs P)
  unfolding after_rt_sigaction
  after_sigaction sa_handler sa_flags size ret signum actp s =
      if not (is_neg ret || actp == 0) && signum == sigstop
      then none
      else after_rt_sigaction sa_handler sa_flags size ret signum actp s
