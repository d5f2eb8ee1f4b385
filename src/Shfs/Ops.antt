-- ===== src/Shfs/Ops.antt =====
-- The operations of shfs that are one command, or two (shfs.c).
use okfs.Base.{
  ℕ, ◌+◌, ◌/◌, ◌%◌, Bool, Option, none, some, [], ◌∷◌, ◌++◌, ◌==◌, if◌then◌else◌, CString,
}
use okfs.Stat.{Result, ok, err}
use okfs.Memory.{Buffer, load_word}
use okfs.Vfs.{Op}
use okfs.Shfs.Clock.{strctime}
use okfs.Shfs.Command.{
  Transport, quoted, print_u, print_o, print_date, do_command, on_path, on_paths,
}

-- Two texts with a blank between them
abbrev pub and_then : CString → CString → CString
and_then s t = s ++ 32 ∷ t

-- The names of the remote functions
abbrev pub s_mkdir : CString
s_mkdir = b's' ∷ b'_' ∷ b'm' ∷ b'k' ∷ b'd' ∷ b'i' ∷ b'r' ∷ []

abbrev pub s_rmdir : CString
s_rmdir = b's' ∷ b'_' ∷ b'r' ∷ b'm' ∷ b'd' ∷ b'i' ∷ b'r' ∷ []

abbrev pub s_mv : CString
s_mv = b's' ∷ b'_' ∷ b'm' ∷ b'v' ∷ []

abbrev pub s_trunc : CString
s_trunc = b's' ∷ b'_' ∷ b't' ∷ b'r' ∷ b'u' ∷ b'n' ∷ b'c' ∷ []

abbrev pub s_ln : CString
s_ln = b's' ∷ b'_' ∷ b'l' ∷ b'n' ∷ []

abbrev pub s_sln : CString
s_sln = b's' ∷ b'_' ∷ b's' ∷ b'l' ∷ b'n' ∷ []

abbrev pub s_chmod : CString
s_chmod = b's' ∷ b'_' ∷ b'c' ∷ b'h' ∷ b'm' ∷ b'o' ∷ b'd' ∷ []

abbrev pub s_chown : CString
s_chown = b's' ∷ b'_' ∷ b'c' ∷ b'h' ∷ b'o' ∷ b'w' ∷ b'n' ∷ []

abbrev pub s_chgrp : CString
s_chgrp = b's' ∷ b'_' ∷ b'c' ∷ b'h' ∷ b'g' ∷ b'r' ∷ b'p' ∷ []

abbrev pub s_rm : CString
s_rm = b's' ∷ b'_' ∷ b'r' ∷ b'm' ∷ []

abbrev pub s_creat : CString
s_creat = b's' ∷ b'_' ∷ b'c' ∷ b'r' ∷ b'e' ∷ b'a' ∷ b't' ∷ []

abbrev pub s_open : CString
s_open = b's' ∷ b'_' ∷ b'o' ∷ b'p' ∷ b'e' ∷ b'n' ∷ []

abbrev pub s_settime : CString
s_settime = b's' ∷ b'_' ∷ b's' ∷ b'e' ∷ b't' ∷ b't' ∷ b'i' ∷ b'm' ∷ b'e' ∷ []

abbrev pub s_finish : CString
s_finish = b's' ∷ b'_' ∷ b'f' ∷ b'i' ∷ b'n' ∷ b'i' ∷ b's' ∷ b'h' ∷ []

-- strctime as the text that it writes
unfoldable pub date_text : ℕ → CString
unfolding strctime print_date
date_text time = elim (strctime time) [ none ↦ [] | some d ↦ print_date d ]

-- mode & S_IALLUGO
abbrev pub permissions : ℕ → ℕ
permissions mode = mode % 4096

-- flags & O_CREAT
abbrev pub creates : ℕ → Bool
creates flags = flags / 64 % 2 == 1

-- The next command, where the one in front did not fail
unfoldable pub and_next {ℓ} : {A : Type ℓ} {W : Type 0} → Op W A → Result A × W → Result A × W
and_next next (ok n, w) = next w
and_next next (err e, w) = (err e, w)

-- buf->actime and buf->modtime, or the time of now
abbrev pub actime : Option Buffer → ℕ → ℕ
actime none now = now
actime (some b) now = load_word b

abbrev pub modtime : Option Buffer → ℕ → ℕ
modtime none now = now
modtime (some b) now = load_word (λ i. b (4 + i))

module _ {W : Type 0} (T : Transport W) (stack stack' : Buffer) where
  -- The mode is not sent.
  unfoldable pub shfs_mkdir : CString → (mode : ℕ) → Op W ℕ
  unfolding on_path do_command
  shfs_mkdir path mode = on_path T stack path (λ s. do_command T s_mkdir (quoted s))

  unfoldable pub shfs_rmdir : CString → Op W ℕ
  unfolding on_path do_command
  shfs_rmdir path = on_path T stack path (λ s. do_command T s_rmdir (quoted s))

  unfoldable pub shfs_rename : CString → CString → Op W ℕ
  unfolding on_paths do_command
  shfs_rename path1 path2 =
      on_paths T stack stack' path1 path2
        (λ s t. do_command T s_mv (and_then (quoted s) (quoted t)))

  unfoldable pub shfs_link : CString → CString → Op W ℕ
  unfolding on_paths do_command
  shfs_link path1 path2 =
      on_paths T stack stack' path1 path2
        (λ s t. do_command T s_ln (and_then (quoted s) (quoted t)))

  unfoldable pub shfs_symlink : CString → CString → Op W ℕ
  unfolding on_paths do_command
  shfs_symlink path1 path2 =
      on_paths T stack stack' path1 path2
        (λ s t. do_command T s_sln (and_then (quoted s) (quoted t)))

  -- dd does not take a block size of 0.
  unfoldable pub shfs_truncate : CString → (size : ℕ) → Op W ℕ
  unfolding on_path do_command
  shfs_truncate path size = on_path T stack path (λ s.
      if size == 0
      then do_command T s_trunc (and_then (quoted s) (and_then (print_u 1) (print_u 0)))
      else do_command T s_trunc (and_then (quoted s) (and_then (print_u size) (print_u 1))))

  unfoldable pub shfs_chmod : CString → (mode : ℕ) → Op W ℕ
  unfolding on_path do_command
  shfs_chmod path mode =
      on_path T stack path (λ s. do_command T s_chmod (and_then (quoted s) (print_o mode)))

  -- uid_t and gid_t have no sign, so the tests user >= 0 and group >= 0 hold.
  unfoldable pub shfs_lchown : CString → (user group : ℕ) → Op W ℕ
  unfolding on_path do_command and_next
  shfs_lchown path user group = on_path T stack path (λ s w.
      and_next (do_command T s_chgrp (and_then (quoted s) (print_u group)))
        (do_command T s_chown (and_then (quoted s) (print_u user)) w))

  unfoldable pub shfs_unlink : CString → Op W ℕ
  unfolding on_path do_command
  shfs_unlink path = on_path T stack path (λ s. do_command T s_rm (quoted s))

  -- Where both times are one command sets them, else one command each; `buf` is struct utimbuf, none
  -- for a null pointer, and `time` the clock.
  unfoldable pub shfs_utime : (time : W → ℕ) → CString → Option Buffer → Op W ℕ
  unfolding on_path do_command and_next date_text
  shfs_utime time path buf = on_path T stack path (λ s w.
      let atime = actime buf (time w) in
      let mtime = modtime buf (time w) in
      let set = λ (which : CString) (t : ℕ).
        do_command T s_settime (and_then (quoted s) (and_then which (date_text t))) in
      if atime == mtime
      then set (b'a' ∷ b'm' ∷ []) atime w
      else and_next (set (b'm' ∷ []) mtime) (set (b'a' ∷ []) atime w))

  -- O_RDONLY is 0, so the test for it always holds, and the mode that is sent is R.
  unfoldable pub shfs_open : CString → (flags mode : ℕ) → Op W ℕ
  unfolding on_path do_command and_next
  shfs_open path flags mode = on_path T stack path (λ s w.
      let opened = do_command T s_open (and_then (quoted s) (b'R' ∷ [])) in
      if creates flags
      then and_next opened
          (do_command T s_creat (and_then (quoted s) (print_o (permissions mode))) w)
      else opened w)

  unfoldable pub shell_finish : Op W ℕ
  unfolding do_command
  shell_finish = do_command T s_finish []
