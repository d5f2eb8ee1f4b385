-- ===== src/Tests/Opens.antt =====
-- A file below a mounted directory is opened.
use okfs.Base.{ℕ, refl, some, [], ◌∷◌, ◌++◌, CString}
use okfs.Localfs.{localfs_at}
use okfs.Localfs.Host.{with_mounts}
use okfs.Vfs.{FsOp, on_world, Env, Place}
use okfs.Vfs.Opening.{okfs_do_open}
use okfs.Vfs.OpenFlags.{Opens, okfs_do_open-Opens}
use okfs.Tests.Switch.{env, m, succeeds}
use okfs.Tests.Remote.{local_os, srv, local_start}

abbrev hosted : Env
hosted = with_mounts env local_os ((m, srv) ∷ [])

abbrev a_path : CString
a_path = b'/' ∷ b'a' ∷ []

abbrev a_place : Place ℕ
a_place = record { number = 0; fsp = localfs_at env.os local_os (m, srv); rel_path = a_path }

abbrev open_ok : CString → (flags mode : ℕ) → FsOp ℕ ℕ
open_ok p flags mode = on_world succeeds

-- O_WRONLY | O_CREAT | O_TRUNC
okfs_do_open-Opens_example :
    Opens hosted open_ok
      (λ p n. on_world (env.os.truncate (srv ++ p) n))
      (λ p. on_world (env.os.lstat (srv ++ p)))
      a_place
      (m ++ a_path)
      577
      420
      local_start
      (okfs_do_open hosted (some open_ok) a_place (m ++ a_path) 577 420 local_start)
okfs_do_open-Opens_example =
    okfs_do_open-Opens hosted open_ok (λ p n. on_world (env.os.truncate (srv ++ p) n))
      (λ p. on_world (env.os.lstat (srv ++ p))) a_place (m ++ a_path) 577 420
      (λ p n. on_world (env.os.chmod (srv ++ p) n)) local_start refl refl refl
