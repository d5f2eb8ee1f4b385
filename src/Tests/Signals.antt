-- ===== src/Tests/Signals.antt =====
-- A traced process, 11, with its parent, 10, which waits for it.
use okfs.Base.{
  inr, ℕ, ◌+◌, ◌<◌, ◌≤◌, ◌≡◌, refl, ◌⊎◌, true, false, none, some, List, [], ◌∷◌, is_some, arith,
}
use okfs.Base.Int.{pos, neg}
use okfs.Memory.{word_byte}
use okfs.Task.{
  put_task, stopped_and_notified, Regs, sig_dfl, running, stopped, SigSet, sigemptyset, Task, Okfs,
  find_slave, current,
}
use okfs.Task.Signals.{sigcont, pause_code, process_signal, deliver_pending_signals}
use okfs.Task.Stopping.{wakeup_slave-stop_slave}
use okfs.Task.Pending.{sent}
use okfs.Task.Queue.{all_zero, queued, process_all, deliver_pending_signals-process_all}
use okfs.Task.Wait.{Found, nr_pause, no_news, search, before_wait, do_after_wait_isstopped}
use okfs.Task.Calls.{word_at}
use okfs.Task.Children.{last, also, Outcome, search-Outcome}
use okfs.Task.WaitSpec.{notify_lem}
use okfs.Task.Loop.{erestartsys, CallTable, fetch, enter, handle_syscall}
use okfs.Task.Restart.{paused, handle_syscall-restarted}
use okfs.Tests.Processes.{ram, process}
use okfs.Tests.Descriptors.{table, files}

abbrev regs : Regs
regs = record {
  eip = 100;
  esp = 200;
  eax = pos 0;
  orig_eax = pos 7;
  ebx = 11;
  ecx = 40;
  edx = 2;
  esi = 0;
  edi = 0;
}

abbrev child : Task ram
child = record {
  pid = 11;
  ppid = 10;
  gid = 5;
  uid = 5;
  childp = [];
  stopped_child = none;
  state = running;
  exit_code = 0;
  retval_saved = pos 0;
  restart_call = pos 0;
  sigpending_mask = sigemptyset;
  nocldstop = false;
  sighandler = λ sig. sig_dfl;
  regs = regs;
  save_regs = regs;
  arg = 11 ∷ 40 ∷ 2 ∷ 0 ∷ 0 ∷ 0 ∷ [];
  has_stack_args = false;
  next_call = none;
  during_call = pos 0;
  cwd = b'/' ∷ [];
  table = table;
  tracee = process;
  cpu = regs;
}

abbrev stopped_one : Task ram
stopped_one = record child { state = stopped; exit_code = 4991 }

abbrev parent : Task ram
parent = record child {
  pid = 10;
  ppid = 1;
  childp = 11 ∷ [];
  stopped_child = some 11;
  restart_call = pos 7;
  during_call = pos 29;
}

-- The child runs, and it is the current task.
abbrev runs : Okfs ram
runs = record { tasks = child ∷ parent ∷ []; slave = some 11; files = files; kills = [] }

abbrev stopped_now : Okfs ram
stopped_now = record runs { tasks = stopped_one ∷ parent ∷ [] }

-- The parent is the current task.
abbrev waits : Okfs ram
waits = record stopped_now { slave = some 10 }

current-child : current runs ≡ some child
unfolding current find_slave
current-child = refl

current-stopped_one : current stopped_now ≡ some stopped_one
unfolding current find_slave
current-stopped_one = refl

current-parent : current waits ≡ some parent
unfolding current find_slave
current-parent = refl

parent_traced : is_some (find_slave 10 (child ∷ parent ∷ [])) ≡ true
unfolding find_slave
parent_traced = refl

child_found : find_slave 11 (stopped_one ∷ parent ∷ []) ≡ some stopped_one
unfolding find_slave
child_found = refl

-- SIGTSTP, then SIGCONT
wakeup_slave-stop_slave_example :
    (s1 : Okfs ram) × (process_signal 4 20 5247 runs ≡ some (20, s1))
    × (t1 : Task ram) × (current s1 ≡ some t1)
    × (t1.state ≡ stopped)
    × (t1.exit_code ≡ 5247)
    × ((i : ℕ) → i < 8 → ram.byte t1.tracee.mem (100 + i) ≡ pause_code i)
    × (s2 : Okfs ram) × (process_signal 4 sigcont 4735 s1 ≡ some (sigcont, s2))
    × (t2 : Task ram) × (current s2 ≡ some t2)
    × (t2.state ≡ running)
    × (t2.cpu ≡ regs)
    × ((a : ℕ) → ram.byte t2.tracee.mem a ≡ ram.byte process.mem a)
    × (t2.tracee.rpl_code ≡ none)
wakeup_slave-stop_slave_example =
    wakeup_slave-stop_slave 4 20 5247 4735 runs child current-child refl refl refl parent_traced
      refl

-- SIGTERM, SIGTSTP and SIGHUP
deliver_pending_signals-process_all_example :
    (r : List ℕ × Okfs ram) × (process_all 4 4991 (15 ∷ 20 ∷ 1 ∷ []) stopped_now ≡ some r)
    × (all_zero r.0 ≡ true)
    × ((r.1).kills ≡ [])
    × (s' : Okfs ram) × (deliver_pending_signals r.1 ≡ some s')
    × (s'.kills ≡ sent 11 1 63 (queued (15 ∷ 20 ∷ 1 ∷ []) sigemptyset) [])
    × (mask : SigSet) × (current s' ≡ some (record stopped_one { sigpending_mask = mask }))
    × ((i : ℕ) → 0 < i → i < 64 → mask i ≡ false)
    × ((i : ℕ) → 63 < i → mask i ≡ queued (15 ∷ 20 ∷ 1 ∷ []) sigemptyset i)
deliver_pending_signals-process_all_example =
    deliver_pending_signals-process_all 4 (15 ∷ 20 ∷ 1 ∷ []) 4991 stopped_now stopped_one
      current-stopped_one refl refl

search-Outcome_example :
    (f : Found) × (search (neg 1) 5 2 (stopped_one ∷ parent ∷ []) (11 ∷ []) false ≡ some f)
    × Outcome (neg 1) 5 2 (stopped_one ∷ []) f
search-Outcome_example =
    search-Outcome (neg 1) 5 2 (stopped_one ∷ parent ∷ []) (11 ∷ []) (stopped_one ∷ [])
      (also 11 stopped_one [] [] child_found last)

notify_lem_example :
    (s' : Okfs ram) × (do_after_wait_isstopped 1 (neg 10) waits ≡ some s')
    × (mem : ram.Mem) × (regs : Regs) × (current s'
        ≡ some (record parent {
          tracee = record process { mem = mem };
          regs = regs;
          cpu = regs;
          has_stack_args = false;
        }))
    × (regs ≡ record (parent.regs) {
      eax = pos 11;
      ebx = word_at parent.arg 0;
      ecx = word_at parent.arg 1;
      edx = word_at parent.arg 2;
      esi = word_at parent.arg 3;
      edi = word_at parent.arg 4;
    })
    × ((i : ℕ) → i < 4 → ram.byte mem (40 + i) ≡ word_byte 4991 i)
    × ((a : ℕ) → (a < 40) ⊎ (40 + 4 ≤ a) → ram.byte mem a ≡ ram.byte process.mem a)
    × (find_slave 11 s'.tasks ≡ some (record stopped_one { state = stopped_and_notified }))
    × ((options gid : ℕ) → search (pos 11) gid options s'.tasks (11 ∷ []) false ≡ some no_news)
notify_lem_example =
    notify_lem 1 (neg 10) waits parent stopped_one 11 (inr refl) current-parent refl child_found
      (omega arith) refl refl

-- A table without handlers
abbrev calls : CallTable ram
calls = record {
  nr_syscalls = 253;
  call_before = λ n. none;
  call_after = λ n. none;
  has_stack_args = λ n. false;
  run = λ f s. some s;
}

-- The parent waits, with option 2, for the child, which runs.
abbrev waiting : Task ram
waiting = record parent { restart_call = pos 0; during_call = pos 7 }

abbrev all_run : Okfs ram
all_run = record runs { tasks = child ∷ waiting ∷ []; slave = some 10 }

current-waiting : current all_run ≡ some waiting
unfolding current find_slave
current-waiting = refl

nothing_new : search (pos 11) 5 2 (child ∷ waiting ∷ []) (11 ∷ []) false ≡ some no_news
unfolding search find_slave
nothing_new = refl

handle_syscall-restarted_example :
    (s1 : Okfs ram) × (before_wait all_run ≡ some s1)
    × (t1 : Task ram) × (current s1 ≡ some t1)
    × (t1.cpu ≡ record regs { orig_eax = nr_pause })
    × (s' : Okfs ram) × (handle_syscall calls (put_task 10 (paused calls (neg 4) t1) s1) ≡ some s')
    × (t' : Task ram) × (current s' ≡ some t')
    × (t'.cpu ≡ record regs { eax = neg erestartsys })
    × (t'.next_call ≡ none)
    × (t'.during_call ≡ pos 0)
    × (t'.restart_call ≡ pos 0)
    × (handle_syscall calls s' ≡ enter calls (fetch calls t') s')
handle_syscall-restarted_example =
    handle_syscall-restarted calls all_run waiting (neg 4) current-waiting refl refl refl refl
      nothing_new refl
