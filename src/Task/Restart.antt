-- ===== src/Task/Restart.antt =====
-- A wait call that before_wait put off, under the main loop of okfs.c.
use okfs.Base.{◌≡◌, refl, ◌∙◌, true, false, none, some, [], ◌∷◌}
use okfs.Base.Int.{ℤ, pos, neg, is_zero}
use okfs.Memory.{Ptrace}
use okfs.Task.{Task, Regs, Okfs, put_task, current}
use okfs.Task.Calls.{get_slave_args, set_slave_args, word_at}
use okfs.Task.Wait.{
  to_int, bad_options, wnohang, nr_pause, no_news, search, suspend, take_found, before_wait,
}
use okfs.Task.Loop.{
  CallTable, erestartsys, stack_args, fetch, enter, restarted, leave, no_next_call, handle_syscall,
}
use okfs.Task.Store.{current-put_task}

module _ {P : Ptrace} (T : CallTable P) where
  open T use {nr_syscalls, call_before, call_after}

  no_next_call-runs :
      (s : Okfs P) (t : Task P)
      → current s ≡ some t
      → no_next_call T s ≡ some (put_task t.pid (record t { next_call = none }) s)
  unfolding no_next_call
  no_next_call-runs s t h = rw (h, no_next_call) refl

  -- The registers of a process that calls again what was put off
  abbrev pub again : Task P → Regs
  again t = record (t.cpu) { orig_eax = t.restart_call; eax = neg erestartsys }

  -- The task that has been set to call it again
  abbrev calling_again : Task P → Task P
  calling_again t = record t {
    arg = t.cpu.ebx ∷ t.cpu.ecx ∷ t.cpu.edx ∷ t.cpu.esi ∷ t.cpu.edi ∷ word_at t.arg 5 ∷ [];
    has_stack_args = false;
    regs = again t;
    cpu = again t;
    during_call = pos 0;
    restart_call = pos 0;
  }

  handle_syscall-enter :
      (s : Okfs P) (t : Task P)
      → current s ≡ some t
      → is_zero t.during_call ≡ true
      → handle_syscall T s ≡ enter T (fetch T t) s
  unfolding handle_syscall
  handle_syscall-enter s t h d = rw (h, handle_syscall, d) refl

  handle_syscall-leave :
      (s : Okfs P) (t : Task P)
      → current s ≡ some t
      → is_zero t.during_call ≡ false
      → is_zero t.restart_call ≡ false
      → stack_args T t.cpu.orig_eax ≡ false
      → handle_syscall T s ≡ no_next_call T (put_task t.pid (calling_again t) s)
  unfolding handle_syscall leave fetch get_slave_args restarted set_slave_args
  handle_syscall-leave s t h d r sa = rw (h, handle_syscall, d, sa, r) refl

  -- The second half of handle_syscall for a task whose call was put off
  leaves :
      (s : Okfs P) (t : Task P)
      → current s ≡ some t
      → is_zero t.during_call ≡ false
      → is_zero t.restart_call ≡ false
      → stack_args T t.cpu.orig_eax ≡ false
      → handle_syscall T s
        ≡ some (
            put_task t.pid
              (record (calling_again t) { next_call = none })
              (put_task t.pid (calling_again t) s))
  leaves s t h d r sa =
      let t1 = calling_again t in
      let s1 = put_task t.pid t1 s in
      handle_syscall-leave s t h d r sa ∙ no_next_call-runs s1 t1 (current-put_task s t t1 h refl)

  before_wait-suspends :
      (s : Okfs P) (t : Task P)
      → current s ≡ some t
      → bad_options (word_at t.arg 2) ≡ false
      → wnohang (word_at t.arg 2) ≡ false
      → search (to_int (word_at t.arg 0)) t.gid (word_at t.arg 2) s.tasks t.childp false
        ≡ some no_news
      → before_wait s ≡ some (put_task t.pid (suspend t) s)
  unfolding before_wait take_found
  before_wait-suspends s t h good hangs finds = rw (h, before_wait, good, finds, hangs) refl

  -- The end of the process's stop in pause(): its registers are those that it was given, but for eax.
  abbrev pub paused : ℤ → Task P → Task P
  paused ret t = record t { cpu = record (t.cpu) { eax = ret } }

  -- A wait call without WNOHANG and with good options, of a task whose children have no news, is put
  -- off by before_wait: the process calls pause() in its place. When pause(), which has no arguments
  -- on the stack, ends with any value and no other register of the process changed, handle_syscall
  -- makes the process call the wait call again: every register is as the process had it for that
  -- call, its number and its arguments included, but for eax, which is -ERESTARTSYS. No handler is
  -- left to run, and OKFS takes the next stop for the entry of that call.
  pub handle_syscall-restarted :
      (s : Okfs P) (t : Task P) (ret : ℤ)
      → current s ≡ some t
      → is_zero t.during_call ≡ false
      → is_zero t.regs.orig_eax ≡ false
      → bad_options (word_at t.arg 2) ≡ false
      → wnohang (word_at t.arg 2) ≡ false
      → search (to_int (word_at t.arg 0)) t.gid (word_at t.arg 2) s.tasks t.childp false
        ≡ some no_news
      → stack_args T nr_pause ≡ false
      → (s1 : Okfs P) × (before_wait s ≡ some s1)
        × (t1 : Task P) × (current s1 ≡ some t1)
        × (t1.cpu ≡ record (t.regs) { orig_eax = nr_pause })
        × (s' : Okfs P) × (handle_syscall T (put_task t.pid (paused ret t1) s1) ≡ some s')
        × (t' : Task P) × (current s' ≡ some t')
        × (t'.cpu ≡ record (t.regs) { eax = neg erestartsys })
        × (t'.next_call ≡ none)
        × (t'.during_call ≡ pos 0)
        × (t'.restart_call ≡ pos 0)
        × (handle_syscall T s' ≡ enter T (fetch T t') s')
  unfolding suspend
  handle_syscall-restarted s t ret h d number good hangs finds sa =
      let t1 = suspend t in
      let s1 = put_task t.pid t1 s in
      let h1 = current-put_task s t t1 h refl in
      let t2 = paused ret t1 in
      let s2 = put_task t.pid t2 s1 in
      let h2 = current-put_task s1 t1 t2 h1 refl in
      let t3 = calling_again t2 in
      let s3 = put_task t.pid t3 s2 in
      let h3 = current-put_task s2 t2 t3 h2 refl in
      let t4 = record t3 { next_call = none } in
      let s4 = put_task t.pid t4 s3 in
      let h4 = current-put_task s3 t3 t4 h3 refl in
      (
        s1,
        before_wait-suspends s t h good hangs finds,
        t1,
        h1,
        refl,
        s4,
        leaves s2 t2 h2 d number sa,
        t4,
        h4,
        refl,
        refl,
        refl,
        refl,
        handle_syscall-enter s4 t4 h4 refl,
      )
