-- ===== src/Tests/Tasks.antt =====
-- A task that forks and ends.
use okfs.Base.{ℕ, ◌<◌, ◌≡◌, refl, none, some, [], ◌∷◌, arith}
use okfs.Fd.{OkfsFile, Files, store, share, inherit}
use okfs.Fd.Counts.{refs, count}
use okfs.Fd.System.{Tasks, refs_all, forks, here, next, AllCounted, Reach-AllCounted}
use okfs.Tests.Descriptors.{shared_file, files, table, task}

abbrev alone : Tasks
alone = record { files = files; tables = table ∷ [] }

alone-AllCounted : AllCounted alone
unfolding refs_all refs
alone-AllCounted = record { exact = λ p. ground arith; used = λ p f h. ground arith }

-- After the fork both tasks have the two descriptors.
abbrev after_fork : Files
after_fork =
    store (store files 7 (some (record shared_file { nshared = 3 }))) 7
      (some (record shared_file { nshared = 4 }))

forked : inherit task ≡ some (after_fork, table)
unfolding inherit share
forked = refl

abbrev two_tasks : Tasks
two_tasks = record { files = after_fork; tables = table ∷ table ∷ [] }

Reach-AllCounted_example :
    ((p : ℕ) → count (two_tasks.files p) ≡ refs_all p two_tasks.tables)
    × ((p : ℕ) → 0 < refs_all p two_tasks.tables → (f : OkfsFile) × (two_tasks.files p ≡ some f))
    × ((p : ℕ) → refs_all p two_tasks.tables ≡ 0 → two_tasks.files p ≡ none)
Reach-AllCounted_example =
    Reach-AllCounted alone-AllCounted (next here (forks [] [] task after_fork table forked))
