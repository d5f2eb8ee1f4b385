-- ===== src/Task/Wait.antt =====
-- The wait calls of control.c: a parent that waits for a child that OKFS keeps stopped, or that still
-- runs, gets what it would get without OKFS.
use okfs.Base.{
  ℕ, zero, suc, ◌+◌, ◌-◌, ◌/◌, ◌%◌, ◌^◌, Bool, true, false, not, Option, none, some, List, [], ◌∷◌,
  ◌==◌, ltb, set, if◌then◌else◌,
}
use okfs.Base.Int.{ℤ, pos, negsuc, neg}
use okfs.Memory.{Ptrace, load_word, word_byte, memset, memget}
use okfs.Task.{
  State, running, stopped, zombie, stopped_and_notified, after_wait_wnohang, after_wait_iszombie,
  after_wait_isstopped, Task, Okfs, find_slave, set_task, put_task, current, remove_child,
  remove_slave,
}
use okfs.Task.Calls.{word_at, set_slave_args, set_slave_return}

-- A word as an int
abbrev pub to_int : ℕ → ℤ
to_int w = if ltb w (2 ^ 31) then pos w else neg (2 ^ 32 - w)

-- options & ~(WNOHANG|WUNTRACED|__WNOTHREAD|__WCLONE|__WALL): a bit from 2 to 28 is set.
abbrev pub bad_options : ℕ → Bool
bad_options options = not (options / 4 % 2 ^ 27 == 0)

-- options & WNOHANG
abbrev pub wnohang : ℕ → Bool
wnohang options = options % 2 == 1

-- options & WUNTRACED
abbrev pub wuntraced : ℕ → Bool
wuntraced options = options / 2 % 2 == 1

-- options | WNOHANG
abbrev pub or_wnohang : ℕ → ℕ
or_wnohang options = if wnohang options then options else options + 1

-- <errno.h>
abbrev pub echild : ℕ
echild = 10

-- __NR_pause
abbrev pub nr_pause : ℤ
nr_pause = pos 29

-- WIFSTOPPED
abbrev pub wifstopped : ℕ → Bool
wifstopped status = status % 256 == 127

-- What the loop of before_wait finds: a stopped child, one that has ended, only children that have
-- nothing to report (flag is set), or no child that is waited for.
pub data Found : Type 0 where
  stopped_child : ℕ → Found
  zombie_child : Found
  no_news : Found
  no_child : Found

abbrev pub found_by : Bool → Found
found_by true = no_news
found_by false = no_child

-- The switch on the state of a child; `rest` is what the loop finds when it goes on.
abbrev pub report : (options pid : ℕ) → State → Option Found → Option Found
report options pid running rest = rest
report options pid stopped rest = if wuntraced options then some (stopped_child pid) else rest
report options pid zombie rest = some zombie_child
report options pid stopped_and_notified rest = rest

module _ {P : Ptrace} where
  -- The tests of pid in front of flag = 1
  abbrev pub waited_for : ℤ → (gid : ℕ) → Task P → Bool
  waited_for (pos zero) gid p = p.gid == gid
  waited_for (pos (suc n)) gid p = p.pid == suc n
  waited_for (negsuc zero) gid p = true
  waited_for (negsuc (suc n)) gid p = p.gid == n + 2

  -- The loop of before_wait over the children
  unfoldable pub search :
      (pid : ℤ) → (gid options : ℕ) → List (Task P) → List ℕ → (flag : Bool) → Option Found
  unfolding find_slave
  search pid gid options tasks [] flag = some (found_by flag)
  search pid gid options tasks (cp ∷ rest) flag =
      let go_on = search pid gid options tasks rest in
      elim (find_slave cp tasks) [
        | none ↦ none
        | some p ↦
            if waited_for pid gid p then report options p.pid p.state (go_on true) else go_on flag
      ]

  -- suspend
  unfoldable pub suspend : Task P → Task P
  suspend t = record t {
    restart_call = t.regs.orig_eax;
    regs = record (t.regs) { orig_eax = nr_pause };
    cpu = record (t.regs) { orig_eax = nr_pause };
  }

  -- What before_wait does with what it found
  unfoldable pub take_found : (options : ℕ) → Task P → Found → Task P
  unfolding set_slave_args suspend
  take_found options t (stopped_child p) =
      record (set_slave_args (record t {
        next_call = some after_wait_isstopped;
        arg = set t.arg 2 (or_wnohang (word_at t.arg 2));
      })) { stopped_child = some p }
  take_found options t zombie_child = record t { next_call = some after_wait_iszombie }
  take_found options t no_news =
      if wnohang options then record t { next_call = some after_wait_wnohang } else suspend t
  take_found options t no_child = t

  -- before_wait
  unfoldable pub before_wait : Okfs P → Option (Okfs P)
  unfolding current find_slave set_task search take_found
  before_wait s = elim (current s) [
    | none ↦ none
    | some t ↦
        let options = word_at t.arg 2 in
        if bad_options options
        then some s
        else elim (search (to_int (word_at t.arg 0)) t.gid options s.tasks t.childp false) [
          | none ↦ none
          | some found ↦ some (put_task t.pid (take_found options t found) s)
        ]
  ]

  -- after_wait_wnohang, with RETURN_VALUE
  unfoldable pub do_after_wait_wnohang : ℤ → Okfs P → Option (Okfs P)
  unfolding current find_slave set_task set_slave_return remove_child
  do_after_wait_wnohang (pos zero) s = some s
  do_after_wait_wnohang (pos (suc n)) s = remove_child (suc n) s
  do_after_wait_wnohang (negsuc n) s =
      if suc n == echild
      then elim (current s) [
        | none ↦ none
        | some t ↦ some (put_task t.pid (set_slave_return (pos 0) t) s)
      ]
      else some s

  -- after_wait_iszombie for RETURN_VALUE > 0
  unfoldable pub do_after_wait_iszombie : (fuel pid : ℕ) → Okfs P → Option (Okfs P)
  unfolding remove_child remove_slave
  do_after_wait_iszombie fuel pid s = elim (remove_child pid s) [
    | none ↦ none
    | some s' ↦ remove_slave fuel pid s'
  ]

  -- The stopped child is reported.
  unfoldable pub notify_of : (cp : ℕ) → Task P → Okfs P → Option (Okfs P)
  unfolding find_slave set_task set_slave_return
  notify_of cp t s = elim (find_slave cp s.tasks) [
    | none ↦ none
    | some c ↦
        let mem = memset P t.tracee.mem (word_at t.arg 1) (word_byte c.exit_code) 4 in
        let t' = record t { tracee = record (t.tracee) { mem = mem } } in
        some (
          put_task t.pid (set_slave_return (pos c.pid) t')
            (put_task cp (record c { state = stopped_and_notified }) s))
  ]

  -- after_wait_isstopped where the system returned nothing
  unfoldable pub notify : Task P → Okfs P → Option (Okfs P)
  unfolding notify_of
  notify t s = elim t.stopped_child [ none ↦ none | some cp ↦ notify_of cp t s ]

  -- after_wait_isstopped, with RETURN_VALUE
  unfoldable pub do_after_wait_isstopped : (fuel : ℕ) → ℤ → Okfs P → Option (Okfs P)
  unfolding current find_slave notify do_after_wait_iszombie
  do_after_wait_isstopped fuel ret s = elim (current s) [
    | none ↦ none
    | some t ↦ elim ret [
      | pos n ↦
          if n == 0
          then notify t s
          else if wifstopped (load_word (memget P (λ i. 0) 0 t.tracee.mem (word_at t.arg 1) 4))
          then some s
          else do_after_wait_iszombie fuel n s
      | negsuc n ↦ if suc n == echild then notify t s else some s
    ]
  ]
