-- ===== src/Task.antt =====
-- The traced processes as a whole: `struct task` (task.h), the list of tasks, what task.c does with
-- them, and the signals that OKFS sends. A task is named by its pid. `none` is a run in which OKFS
-- ends (err_quit, exit) or leaves the code through a null pointer.
pub mod Signals
pub mod Calls
pub mod Wait
pub mod Children
pub mod WaitSpec
pub mod Loop
pub mod Restart
pub mod Store
pub mod Stopping
pub mod Pending
pub mod Queue
use okfs.Base.{
  ℕ, zero, suc, ◌+◌, Bool, true, false, ◌||◌, Option, none, some, List, [], ◌∷◌, ◌++◌, ◌==◌,
  if◌then◌else◌, CString, length,
}
use okfs.Base.Int.{ℤ, pos, negsuc, neg}
use okfs.Memory.{Ptrace, Tracee, Buffer, memset, memget}
use okfs.Fd.{Files, FdTable, close_all, inherit}

-- struct user_regs_struct, as far as the program reads it
pub record Regs : Type 0 where
  pub eip : ℕ
  pub esp : ℕ
  pub eax : ℤ
  pub orig_eax : ℤ
  pub ebx : ℕ
  pub ecx : ℕ
  pub edx : ℕ
  pub esi : ℕ
  pub edi : ℕ

-- sighandler[sig], of which only the default is ever told from the others
pub data SigHandler : Type 0 where
  sig_dfl : SigHandler
  not_sig_dfl : SigHandler

-- The functions that next_call points to; `entry` is one of the call table.
pub data NextCall : Type 0 where
  return_saved : NextCall
  after_wait_wnohang : NextCall
  after_wait_iszombie : NextCall
  after_wait_isstopped : NextCall
  after_fork : NextCall
  entry : ℕ → NextCall

-- SLAVE_RUNNING, SLAVE_STOPPED, SLAVE_ZOMBIE and SLAVE_STOPPED_AND_NOTIFIED
pub data State : Type 0 where
  running : State
  stopped : State
  zombie : State
  stopped_and_notified : State

-- STOPPED_TASK
abbrev pub stopped_task : State → Bool
stopped_task running = false
stopped_task stopped = true
stopped_task zombie = false
stopped_task stopped_and_notified = true

abbrev pub is_zombie : State → Bool
is_zombie running = false
is_zombie stopped = false
is_zombie zombie = true
is_zombie stopped_and_notified = false

-- sigset_t
abbrev pub SigSet : Type 0
SigSet = ℕ → Bool

abbrev pub sigemptyset : SigSet
sigemptyset i = false

abbrev pub sigaddset : ℕ → SigSet → SigSet
sigaddset sig mask i = mask i || i == sig

abbrev pub sigdelset : ℕ → SigSet → SigSet
sigdelset sig mask i = if i == sig then false else mask i

-- struct task. `tracee` is the process's memory with rpl_code, rpl_code_len and rpl_dest; `cpu` are the
-- registers that the process itself has; `childp` names the children.
pub record Task (P : Ptrace) : Type 0 where
  pub pid : ℕ
  pub ppid : ℕ
  pub gid : ℕ
  pub uid : ℕ
  pub childp : List ℕ
  pub stopped_child : Option ℕ
  pub state : State
  pub exit_code : ℕ
  pub retval_saved : ℤ
  pub restart_call : ℤ
  pub sigpending_mask : SigSet
  pub nocldstop : Bool
  pub sighandler : ℕ → SigHandler
  pub regs : Regs
  pub save_regs : Regs
  pub arg : List ℕ
  pub has_stack_args : Bool
  pub next_call : Option NextCall
  pub during_call : ℤ
  pub cwd : CString
  pub table : FdTable
  pub tracee : Tracee P
  pub cpu : Regs

-- A signal that OKFS sent with kill()
pub record Kill : Type 0 where
  pub pid : ℕ
  pub sig : ℕ

-- The state of OKFS: the list that starts at first_task, the current task, the open files, and the
-- signals sent so far, the last one first.
pub record Okfs (P : Ptrace) : Type 0 where
  pub tasks : List (Task P)
  pub slave : Option ℕ
  pub files : Files
  pub kills : List Kill

-- SIGCHLD and SIGUNPAUSE (SIGUNUSED)
abbrev pub sigchld : ℕ
sigchld = 17

abbrev pub sigunpause : ℕ
sigunpause = 31

abbrev is_slave : Option ℕ → ℕ → Bool
is_slave none pid = false
is_slave (some p) pid = p == pid

-- The states that change_slave_state tells the parent of
abbrev reported : State → Bool
reported running = false
reported stopped = true
reported zombie = true
reported stopped_and_notified = false

-- The children without the first one of a pid; `none` where no child has it, as the loop then
-- follows the null pointer at the end of the list.
unfoldable pub unlink_child : ℕ → List ℕ → Option (List ℕ)
unlink_child pid [] = none
unlink_child pid (c ∷ cs) =
    let rest = unlink_child pid cs in
    if c == pid then some cs else elim rest [ none ↦ none | some r ↦ some (c ∷ r) ]

module _ {P : Ptrace} where
  -- find_slave
  unfoldable pub find_slave : ℕ → List (Task P) → Option (Task P)
  find_slave pid [] = none
  find_slave pid (t ∷ ts) = if t.pid == pid then some t else find_slave pid ts

  -- A store through the pointer to the task of a pid
  unfoldable pub set_task : ℕ → Task P → List (Task P) → List (Task P)
  set_task pid t' [] = []
  set_task pid t' (t ∷ ts) = if t.pid == pid then t' ∷ ts else t ∷ set_task pid t' ts

  abbrev pub put_task : ℕ → Task P → Okfs P → Okfs P
  put_task pid t s = record s { tasks = set_task pid t s.tasks }

  -- *slave
  unfoldable pub current : Okfs P → Option (Task P)
  unfolding find_slave
  current s = elim s.slave [ none ↦ none | some pid ↦ find_slave pid s.tasks ]

  abbrev pub kill : ℕ → ℕ → Okfs P → Okfs P
  kill pid sig s = record s { kills = record { pid = pid; sig = sig } ∷ s.kills }

  -- The list of tasks without the one of a pid, and that task; `none` is a pid that is not listed,
  -- for which the code goes on with an uninitialised pointer.
  unfoldable pub unlink_task : ℕ → List (Task P) → Option (Task P × List (Task P))
  unlink_task pid [] = none
  unlink_task pid (t ∷ ts) =
      let rest = unlink_task pid ts in
      if t.pid == pid
      then some (t, ts)
      else elim rest [ none ↦ none | some r ↦ some (r.0, t ∷ r.1) ]

  -- The loop over the children in remove_slave, which calls remove_slave again for a child that has
  -- ended.
  orphan_all : (ℕ → Okfs P → Option (Okfs P)) → List ℕ → Okfs P → Option (Okfs P)
  unfolding find_slave set_task
  orphan_all remove [] s = some s
  orphan_all remove (cp ∷ rest) s = elim (find_slave cp s.tasks) [
    | none ↦ none
    | some c ↦
        elim (if is_zombie c.state
          then remove cp (put_task cp (record c { ppid = 1 }) s)
          else some (put_task cp (record c { ppid = 1 }) s)) [
            | none ↦ none
            | some s' ↦ orphan_all remove rest s'
          ]
  ]

  -- if (first_task == NULL) exit(0)
  exit_if_none : Okfs P → List (Task P) → Option (Okfs P)
  exit_if_none s [] = none
  exit_if_none s (t ∷ ts) = some s

  -- remove_slave. `fuel` bounds the calls inside each other: each has taken a task off the list.
  unfoldable pub remove_slave : (fuel pid : ℕ) → Okfs P → Option (Okfs P)
  unfolding unlink_task orphan_all exit_if_none
  remove_slave zero pid s = none
  remove_slave (suc fuel) pid s =
      let remove = remove_slave fuel in
      elim (unlink_task pid s.tasks) [
        | none ↦ none
        | some r ↦
            elim (orphan_all remove (r.0).childp
              (record s { tasks = r.1; slave = if is_slave s.slave pid then none else s.slave })) [
                | none ↦ none
                | some s' ↦ exit_if_none s' s'.tasks
              ]
      ]

  -- remove_child
  unfoldable pub remove_child : ℕ → Okfs P → Option (Okfs P)
  unfolding current find_slave set_task unlink_child
  remove_child pid s = elim (current s) [
    | none ↦ none
    | some t ↦ elim (unlink_child pid t.childp) [
      | none ↦ none
      | some cs ↦ elim (find_slave pid s.tasks) [
        | none ↦ none
        | some c ↦
            some
              (put_task t.pid (record t { childp = cs }) (put_task pid (record c { ppid = 1 }) s))
      ]
    ]
  ]

  -- add_child
  unfoldable pub add_child : ℕ → Okfs P → Option (Okfs P)
  unfolding current set_task
  add_child child_task s = elim (current s) [
    | none ↦ none
    | some t ↦ some (put_task t.pid (record t { childp = child_task ∷ t.childp }) s)
  ]

  -- What change_slave_state does first when the task has ended: all its descriptors are closed.
  close_fds : (open_max : ℕ) → State → Task P → Files → Option (Files × FdTable)
  close_fds open_max state t files =
      if is_zombie state
      then elim (close_all open_max (record { files = files; table = t.table })) [
        | none ↦ none
        | some f ↦ some (f.files, f.table)
      ]
      else some (files, t.table)

  -- What change_slave_state does last: the parent is told, or the orphan is removed.
  tell_parent : State → Task P → Okfs P → Option (Okfs P)
  unfolding remove_slave
  tell_parent state t s =
      if t.ppid == 1
      then if is_zombie state then remove_slave (length s.tasks) t.pid s else some s
      else if reported state
      then some (kill t.ppid sigunpause s)
      else some s

  -- change_slave_state
  unfoldable pub change_slave_state : (open_max : ℕ) → State → ℕ → Okfs P → Option (Okfs P)
  unfolding current set_task close_fds tell_parent
  change_slave_state open_max state wait_status s = elim (current s) [
    | none ↦ none
    | some t ↦ elim (close_fds open_max state t s.files) [
      | none ↦ none
      | some f ↦ tell_parent state t (record s {
        tasks =
            set_task t.pid (record t { state = state; exit_code = wait_status; table = f.1 })
              s.tasks;
        files = f.0;
      })
    ]
  ]
