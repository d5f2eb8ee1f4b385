-- ===== src/Vfs/Pairs.antt =====
-- The calls of vfs_path_calls.c that take two paths, those that hand text to the process, and those
-- on the working directory.
use okfs.Base.{
  ℕ, ◌+◌, Bool, true, false, not, Option, none, some, ◌==◌, ltb, if◌then◌else◌, CString, length,
}
use okfs.Base.Int.{ℤ, pos, neg}
use okfs.Stat.{
  Stat, Result, ok, err, is_dir_mode, eperm, enotdir, einval, erange, exdev, eopnotsupp,
}
use okfs.Memory.{Buffer, memset, cstr}
use okfs.Vfs.{
  Op, FsEntry, Env, Resolved, Vfs, call, arglstat, proc_path1, proc_path2, clean_path1, clean_path2,
  set_return, call_fs, FsOp,
}
use okfs.Vfs.Entries.{add_entry, remove_entry}
use okfs.Vfs.Calls.{read_last_link, same_fsp, end2, proceed, on_path1, after_success, ask_os}

module _ (E : Env) where
  open E use {World, os, full_name_hash, ptrace}

  -- okfs_before_lnk_rnm with both paths resolved: true for dummy_call(), after which the handler of
  -- the call follows; false for force_call_return.
  unfoldable pub same_or_exdev : (r1 r2 : Resolved World) → Vfs E → Bool × Vfs E
  same_or_exdev r1 r2 s =
      if same_fsp r1.place r2.place
      then (true, s)
      else (false, set_return (neg exdev) (clean_path2 E (clean_path1 E s)))

  unfoldable pub second_path :
      Resolved World → Option (Result (Resolved World) × Vfs E) → Option (Bool × Vfs E)
  unfolding same_or_exdev
  second_path r1 none = none
  second_path r1 (some (err e, s)) =
      some (false, clean_path2 E (clean_path1 E (set_return (neg e) s)))
  second_path r1 (some (ok r2, s)) = some (same_or_exdev r1 r2 s)

  unfoldable pub first_path :
      Option CString → Option (Result (Resolved World) × Vfs E) → Option (Bool × Vfs E)
  unfolding second_path
  first_path arg2 none = none
  first_path arg2 (some (err e, s)) = some (false, clean_path1 E (set_return (neg e) s))
  first_path arg2 (some (ok r1, s)) = second_path r1 (proc_path2 E (not read_last_link) arg2 s)

  -- okfs_before_lnk_rnm
  unfoldable pub before_lnk_rnm : (arg1 arg2 : Option CString) → Vfs E → Option (Bool × Vfs E)
  unfolding first_path
  before_lnk_rnm arg1 arg2 s = first_path arg2 (proc_path1 E (not read_last_link) arg1 s)

  -- What okfs_link and okfs_rename do with the two halves of fs_resolve that were filled before;
  -- `none` is a null pointer in one of them.
  unfoldable pub on_pair :
      (missing : ℕ)
      → (FsEntry World → Option (CString → CString → FsOp World ℕ))
      → (after : ℕ → (path1 path2 : CString) → Vfs E → Option (Vfs E))
      → (CString → CString → Op World ℕ)
      → Resolved World
      → Resolved World
      → Vfs E
      → Option (ℤ × Vfs E)
  on_pair missing fs_op after os_op r1 r2 s = elim r1.place [
    | none ↦ ask_os E (os_op r1.canon_path r2.canon_path) s
    | some p1 ↦ elim (fs_op p1.fsp.entry) [
      | none ↦ some (neg missing, s)
      | some op ↦ elim r2.place [
        | none ↦ none
        | some p2 ↦
            after_success E (after p1.number r1.canon_path r2.canon_path)
              (call_fs E (op p1.rel_path p2.rel_path) s)
      ]
    ]
  ]

  unfoldable pub with_pair :
      (Resolved World → Resolved World → Vfs E → Option (ℤ × Vfs E)) → Vfs E → Option (ℤ × Vfs E)
  with_pair body s = elim s.callfs1.resolved [
    | none ↦ none
    | some r1 ↦ elim s.callfs2.resolved [ none ↦ none | some r2 ↦ body r1 r2 s ]
  ]

  unfoldable pub end_both : Option (ℤ × Vfs E) → Option (Vfs E)
  end_both none = none
  end_both (some (ret, s)) = some (clean_path2 E (clean_path1 E (set_return ret s)))

  -- okfs_link: only the new name appears.
  unfoldable pub okfs_link : Vfs E → Option (Vfs E)
  unfolding on_pair with_pair end_both
  okfs_link s = end_both (
      with_pair
        (on_pair eperm (λ e. e.link) (λ i path1 path2 s'. some (add_entry E i path2 s')) os.link) s)

  -- okfs_rename: the old name goes, the new one appears.
  abbrev pub moves : ℕ → (path1 path2 : CString) → Vfs E → Option (Vfs E)
  moves i path1 path2 s = elim (remove_entry E i path1 s) [
    | none ↦ none
    | some s' ↦ some (add_entry E i path2 s')
  ]

  unfoldable pub okfs_rename : Vfs E → Option (Vfs E)
  unfolding on_pair with_pair end_both
  okfs_rename s = end_both (with_pair (on_pair eopnotsupp (λ e. e.rename) moves os.rename) s)

  -- A call through before_lnk_rnm, and through its handler where that lets it pass.
  unfoldable pub through : (Vfs E → Option (Vfs E)) → Option (Bool × Vfs E) → Option (Vfs E)
  through handler none = none
  through handler (some (passed, s)) = if passed then handler s else some s

  -- okfs_symlink: the text of the link is the string at ARG1, as it is.
  unfoldable pub okfs_symlink :
      (oldpath : CString) → (arg2 : Option CString) → Vfs E → Option (Vfs E)
  unfolding proceed end2
  okfs_symlink oldpath arg2 s = end2 E (
      proceed E
        (λ r s'. elim r.place [
          | none ↦ ask_os E (os.symlink oldpath r.canon_path) s'
          | some p ↦ elim p.fsp.entry.symlink [
            | none ↦ some (neg eopnotsupp, s')
            | some op ↦
                after_success E (λ s2. some (add_entry E p.number r.canon_path s2))
                  (call_fs E (op oldpath p.rel_path) s')
          ]
        ])
        (proc_path2 E (not read_last_link) arg2 s))

  -- `if (ret > 0) slave_memset((void *)ARG2, buf, ret)`
  unfoldable pub give_text : (arg2 : ℕ) → Result CString × Vfs E → Option (ℤ × Vfs E)
  give_text arg2 (err e, s) = some (neg e, s)
  give_text arg2 (ok buf, s) = some (
    pos (length buf),
    if ltb 0 (length buf)
        then record s { mem = memset ptrace s.mem arg2 (cstr buf) (length buf) }
        else s,
  )

  unfoldable pub okfs_readlink : Option CString → (arg2 bufsize : ℕ) → Vfs E → Option (Vfs E)
  unfolding on_path1 give_text
  okfs_readlink arg arg2 bufsize = on_path1 E (not read_last_link) arg (λ r s.
      if bufsize == 0 then some (neg einval, s) else elim r.place [
        | none ↦ give_text arg2 (call E (os.readlink r.canon_path bufsize) s)
        | some p ↦ elim p.fsp.entry.readlink [
          | none ↦ some (neg eopnotsupp, s)
          | some op ↦ give_text arg2 (call_fs E (op p.rel_path bufsize) s)
        ]
      ])

  -- `if (ret == 0) slave_memset((void *)ARG2, &buf, sizeof(buf))`
  unfoldable pub give_buffer : (size arg2 : ℕ) → Result Buffer × Vfs E → Option (ℤ × Vfs E)
  give_buffer size arg2 (err e, s) = some (neg e, s)
  give_buffer size arg2 (ok buf, s) =
      some (pos 0, record s { mem = memset ptrace s.mem arg2 buf size })

  unfoldable pub okfs_statfs : Option CString → (arg2 : ℕ) → Vfs E → Option (Vfs E)
  unfolding on_path1 give_buffer
  okfs_statfs arg arg2 = on_path1 E read_last_link arg (λ r s. elim r.place [
    | none ↦ give_buffer E.sizeof_statfs arg2 (call E (os.statfs r.canon_path) s)
    | some p ↦ elim p.fsp.entry.statfs [
      | none ↦ some (neg eopnotsupp, s)
      | some op ↦ give_buffer E.sizeof_statfs arg2 (call_fs E (op p.rel_path) s)
    ]
  ])

  -- okfs_chdir behind okfs_arglstat
  unfoldable pub enter : CString → Result Stat × Vfs E → Option (ℤ × Vfs E)
  enter path (err e, s) = some (neg e, s)
  enter path (ok buf, s) =
      if is_dir_mode buf.st_mode
      then some (pos 0, record s { cwd = path })
      else some (neg enotdir, s)

  unfoldable pub okfs_chdir : Option CString → Vfs E → Option (Vfs E)
  unfolding on_path1 enter
  okfs_chdir arg =
      on_path1 E read_last_link arg (λ r s. enter r.canon_path (arglstat E r.canon_path s))

  unfoldable pub okfs_getcwd : (buf size : ℕ) → Vfs E → Vfs E
  okfs_getcwd buf size s =
      let cwdlen = length s.cwd in
      if ltb size (cwdlen + 1)
      then set_return (neg erange) s
      else set_return (pos (cwdlen + 1))
          (record s { mem = memset ptrace s.mem buf (cstr s.cwd) (cwdlen + 1) })
