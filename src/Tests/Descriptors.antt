-- ===== src/Tests/Descriptors.antt =====
-- A task with four places for descriptors; the first two point at one file.
use okfs.Base.{ℕ, ◌+◌, ◌≡◌, refl, true, false, none, some, [], ◌∷◌, ◌==◌, if◌then◌else◌, arith}
use okfs.Base.Int.{pos}
use okfs.Fd.{OkfsFile, Files, FdTable, Fds, slot, dup2, inherit, flag_at, after_execve, close_all}
use okfs.Fd.Counts.{refs, count, Counted}
use okfs.Fd.Moves.{dup2-Counted, dup2-lost}
use okfs.Fd.Loops.{inherit-Counted, after_execve-Counted, close_all-Counted}

abbrev pub shared_file : OkfsFile
shared_file = record {
  path = b'/' ∷ b'a' ∷ [];
  rel_path = none;
  ino = none;
  fsp = none;
  f_pos = pos 0;
  nshared = 2;
}

abbrev pub files : Files
files p = if p == 7 then some shared_file else none

abbrev pub table : FdTable
table = record {
  fd_tab = some 7 ∷ some 7 ∷ none ∷ none ∷ [];
  close_on_exec = false ∷ true ∷ false ∷ false ∷ [];
  fsfd = pos 0 ∷ pos 0 ∷ pos 0 ∷ pos 0 ∷ [];
}

abbrev pub task : Fds
task = record { files = files; table = table }

abbrev nobody : ℕ → ℕ
nobody p = 0

pub task-Counted : Counted nobody task
unfolding refs
task-Counted = record { exact = λ p. ground arith; used = λ p f h. ground arith }

dup2-Counted_example :
    (s' : Fds) × (dup2 4 (pos 0) (pos 1) task ≡ some (s', pos 1))
    × Counted nobody s'
    × ((j : ℕ) → slot s'.table.fd_tab j ≡ (if j == 1 then some 7 else slot table.fd_tab j))
dup2-Counted_example =
    dup2-Counted nobody task 4 0 1 7 task-Counted refl refl (omega arith) (λ e. omega (arith, e))

dup2-lost_example :
    (s' : Fds) × (dup2 4 (pos 1) (pos 1) task ≡ some (s', pos 1)) × (slot s'.table.fd_tab 1 ≡ none)
dup2-lost_example = dup2-lost nobody task 4 1 7 task-Counted refl (omega arith)

inherit-Counted_example :
    (after : Files) × (inherit task ≡ some (after, table))
    × Counted (λ p. refs p table.fd_tab + nobody p) (record { files = after; table = table })
inherit-Counted_example = inherit-Counted nobody task task-Counted

after_execve-Counted_example :
    (s' : Fds) × (after_execve 4 task ≡ some s')
    × Counted nobody s'
    × ((j : ℕ)
        → slot s'.table.fd_tab j
          ≡ (if flag_at table.close_on_exec j then none else slot table.fd_tab j))
after_execve-Counted_example = after_execve-Counted nobody 4 task task-Counted refl

close_all-Counted_example :
    (s' : Fds) × (close_all 4 task ≡ some s')
    × Counted nobody s'
    × ((j : ℕ) → slot s'.table.fd_tab j ≡ none)
    × ((p : ℕ) → count (s'.files p) ≡ nobody p)
close_all-Counted_example = close_all-Counted nobody 4 task task-Counted refl
