-- ===== src/Task/Calls.antt =====
-- The arguments and the value of a system call of a traced process, and calls that are not executed
-- (the second half of task.c).
use okfs.Base.{ℕ, ◌+◌, ◌/◌, ◌%◌, Bool, none, some, List, [], ◌∷◌, get_elem?, if◌then◌else◌}
use okfs.Base.Int.{ℤ, pos, neg}
use okfs.Memory.{Ptrace, Buffer, load_word, word_byte, memset, memget}
use okfs.Task.{Regs, return_saved, Task}

-- DUMMY_CALL_NR, __NR_getpid
abbrev pub dummy_call_nr : ℤ
dummy_call_nr = pos 20

-- <errno.h>
abbrev pub enosys : ℕ
enosys = 38

-- A word of the six of arg[]
abbrev pub word_at : List ℕ → ℕ → ℕ
word_at l i = elim (get_elem? l i) [ none ↦ 0 | some w ↦ w ]

-- arg[] as the bytes that it has in memory
abbrev pub words : List ℕ → Buffer
words l i = word_byte (word_at l (i / 4)) (i % 4)

-- The registers that set_slave_args leaves in slave->regs
abbrev pub with_args : List ℕ → Regs → Regs
with_args l r = record r {
  ebx = word_at l 0;
  ecx = word_at l 1;
  edx = word_at l 2;
  esi = word_at l 3;
  edi = word_at l 4;
}

module _ {P : Ptrace} where
  -- get_slave_args; `stack_args` is call[callnr].has_stack_args.
  unfoldable pub get_slave_args : (stack_args : Bool) → Task P → Task P
  get_slave_args stack_args t =
      let word = λ (i : ℕ). load_word (memget P (λ j. 0) 0 t.tracee.mem (t.regs.esp + 4 + i) 4) in
      if stack_args
      then record t {
        arg = word 0 ∷ word 4 ∷ word 8 ∷ word 12 ∷ word 16 ∷ word 20 ∷ [];
        has_stack_args = stack_args;
      }
      else record t {
        arg = t.regs.ebx ∷ t.regs.ecx ∷ t.regs.edx ∷ t.regs.esi ∷ t.regs.edi ∷ word_at t.arg 5 ∷ [];
        has_stack_args = stack_args;
      }

  -- set_slave_args
  unfoldable pub set_slave_args : Task P → Task P
  set_slave_args t =
      if t.has_stack_args
      then record t {
        tracee = record (t.tracee) {
          mem = memset P t.tracee.mem (t.regs.esp + 4) (words t.arg) 24;
        };
        cpu = t.regs;
      }
      else record t { regs = with_args t.arg t.regs; cpu = with_args t.arg t.regs }

  -- set_slave_return
  unfoldable pub set_slave_return : ℤ → Task P → Task P
  unfolding set_slave_args
  set_slave_return value t = set_slave_args (record t { regs = record (t.regs) { eax = value } })

  -- dummy_call
  unfoldable pub dummy_call : Task P → Task P
  unfolding set_slave_args
  dummy_call t = set_slave_args (record t { regs = record (t.regs) { orig_eax = dummy_call_nr } })

  -- force_call_return
  unfoldable pub force_call_return : ℤ → Task P → Task P
  unfolding dummy_call
  force_call_return retval t =
      dummy_call (record t { retval_saved = retval; next_call = some return_saved })

  -- return_saved
  unfoldable pub do_return_saved : Task P → Task P
  unfolding set_slave_return
  do_return_saved t = set_slave_return t.retval_saved t

  -- unimplemented_call
  unfoldable pub unimplemented_call : Task P → Task P
  unfolding force_call_return
  unimplemented_call t = force_call_return (neg enosys) t
