-- ===== src/Tests/Remote.antt =====
-- A path for the remote shell, and a directory mounted elsewhere.
use okfs.Base.{ℕ, ◌+◌, ◌≡◌, refl, some, [], ◌∷◌, ◌++◌, CString, length, arith}
use okfs.Base.Int.{pos}
use okfs.Stat.{ok}
use okfs.Memory.{Buffer, has_nul}
use okfs.Shfs.Convert.{convert_loop, convert_path}
use okfs.Shfs.Word.{shell_words}
use okfs.Shfs.Command.{
  Transport, strtoul, reply, take_reply, text_of, take_converted, converted_path, answer, do_send,
  do_command, on_path, on_paths,
}
use okfs.Shfs.Ops.{s_mv, shfs_rename}
use okfs.Shfs.Sent.{rename, Sendable, TwoPaths-shell_words}
use okfs.Shfs.Clock.{Date, strctime}
use okfs.Shfs.Calendar.{IsDate, seconds_of, seconds_of-strctime}
use okfs.Localfs.{LocalOs}
use okfs.Localfs.Host.{host, with_mounts, rmdir, Ends, delegate-host}
use okfs.Vfs.{Vfs, locate, clean}
use okfs.Vfs.Entries.{remove_entry}
use okfs.Vfs.Keeps.{remove_entry-world}
use okfs.Vfs.Calls.{delegate}
use okfs.Tests.Processes.{greeting}
use okfs.Tests.Switch.{env, no_cache, m, succeeds, says}

-- it's
abbrev its : CString
its = b'i' ∷ b't' ∷ 39 ∷ b's' ∷ []

its-Sendable : Sendable its
unfolding has_nul
its-Sendable = (omega arith, refl)

-- A shell that completes every command, and counts the lines
abbrev remote : Transport ℕ
remote = record {
  sock_write = λ s w. (ok (length s), w + 1);
  sock_readln = λ w. (ok (b'#' ∷ b'#' ∷ b'#' ∷ 32 ∷ b'2' ∷ b'0' ∷ b'0' ∷ []), w + 1);
}

abbrev sevens : Buffer
sevens i = 7

renamed : shfs_rename remote sevens sevens its (b'a' ∷ []) 0 ≡ (ok 0, 2)
unfolding shfs_rename on_paths on_path converted_path take_converted convert_path convert_loop
    text_of do_command do_send answer reply strtoul take_reply
renamed = refl

TwoPaths-shell_words_example :
    (l : CString) × (shfs_rename remote sevens sevens its its 0
      ≡ do_send remote l (remote.sock_write l 0))
    × (shell_words 3 l ≡ some (s_mv ∷ its ∷ its ∷ []))
TwoPaths-shell_words_example =
    TwoPaths-shell_words remote sevens sevens (shfs_rename remote sevens sevens) s_mv its its 0
      rename its-Sendable its-Sendable

-- 29 February 2004, 12:30:05
leap_day :
    strctime 1078057805
    ≡ some (record { year = 2004; month = 2; day = 29; hour = 12; min = 30; sec = 5 })
unfolding strctime
leap_day = refl

seconds_of-strctime_example :
    (d : Date) × (strctime 1078057805 ≡ some d) × IsDate d × (seconds_of d ≡ 1078057805)
seconds_of-strctime_example = seconds_of-strctime 1078057805

abbrev pub local_os : LocalOs ℕ
local_os = record {
  chown = λ p o g. succeeds;
  read = λ fd n. says [];
  write = λ fd b n. succeeds;
  lseek = λ fd o w. succeeds;
}

-- /srv is mounted at /m.
abbrev pub srv : CString
srv = b'/' ∷ b's' ∷ b'r' ∷ b'v' ∷ []

abbrev pub local_start : Vfs (with_mounts env local_os ((m, srv) ∷ []))
local_start = record {
  world = 0;
  caches = λ i. no_cache;
  cwd = b'/' ∷ [];
  mem = greeting;
  ret = pos 0;
  callfs1 = clean;
  callfs2 = clean;
}

delegate-host_example :
    Ends env local_os
      ((m, srv) ∷ [])
      (remove_entry (with_mounts env local_os ((m, srv) ∷ [])) 0 (m ++ b'/' ∷ b'a' ∷ []))
      local_start
      (env.os.rmdir (host ((m, srv) ∷ []) (m ++ b'/' ∷ b'a' ∷ [])) local_start.world)
      (delegate
        (with_mounts env local_os ((m, srv) ∷ []))
        (λ e. e.rmdir)
        (remove_entry (with_mounts env local_os ((m, srv) ∷ [])))
        env.os.rmdir
        (locate (with_mounts env local_os ((m, srv) ∷ [])) (m ++ b'/' ∷ b'a' ∷ []))
        local_start)
unfolding locate
delegate-host_example =
    delegate-host env local_os ((m, srv) ∷ []) (λ e. e.rmdir) env.os.rmdir
      (remove_entry (with_mounts env local_os ((m, srv) ∷ []))) rmdir
      (λ i path s s' e. remove_entry-world (with_mounts env local_os ((m, srv) ∷ [])) i path s s' e)
      (m ++ b'/' ∷ b'a' ∷ []) local_start
