-- ===== src/Fd.antt =====
-- The descriptors of a traced process and the files behind them: `struct okfs_file` of virtualfs.h,
-- the tables of `struct task`, add_new_fd of vfs_open.c, the operations on descriptors of
-- vfs_fd_calls.c, and what fork, execve and the end of a process do with descriptors (task.c,
-- control.c). A file is named by its address; a store says what is at each address.
pub mod Counts
pub mod Moves
pub mod Loops
pub mod System
use okfs.Base.{
  ℕ, zero, suc, ◌+◌, ◌-◌, Bool, true, false, not, ◌&&◌, ◌||◌, Option, none, some, List, [], ◌∷◌,
  ◌==◌, leb, if◌then◌else◌, CString, length, get_elem?, set,
}
use okfs.Base.Int.{ℤ, pos, negsuc, neg}
use okfs.Stat.{ebadf, einval, emfile}

-- struct okfs_file: `fsp` is none for a file of the system, else the file system's number; `ino` is
-- an inode of that file system's cache.
pub record OkfsFile : Type 0 where
  pub path : CString
  pub rel_path : Option CString
  pub ino : Option ℕ
  pub fsp : Option ℕ
  pub f_pos : ℤ
  pub nshared : ℕ

abbrev pub Files : Type 0
Files = ℕ → Option OkfsFile

abbrev pub store : Files → ℕ → Option OkfsFile → Files
store files p f q = if q == p then f else files q

-- The tables of a task, each with OPEN_MAX places.
pub record FdTable : Type 0 where
  pub fd_tab : List (Option ℕ)
  pub close_on_exec : List Bool
  pub fsfd : List ℤ

-- The store of files and the tables of one task.
pub record Fds : Type 0 where
  pub files : Files
  pub table : FdTable

-- fd_tab[fd]
abbrev pub slot : List (Option ℕ) → ℕ → Option ℕ
slot l fd = elim (get_elem? l fd) [ none ↦ none | some o ↦ o ]

-- fd < 0 || fd >= OPEN_MAX || !fd_tab[fd], turned round
abbrev pub is_open : FdTable → ℤ → Bool
is_open t (negsuc n) = false
is_open t (pos fd) = elim (slot t.fd_tab fd) [ none ↦ false | some p ↦ true ]

-- The file behind a descriptor; `none` where there is no descriptor, and where its file is freed.
abbrev pub file_at : Fds → ℕ → Option OkfsFile
file_at s fd = elim (slot s.table.fd_tab fd) [ none ↦ none | some p ↦ s.files p ]

-- okfs_op_on_fd: whether the handler that follows the call is kept.
pub op_on_fd : FdTable → ℤ → Bool
op_on_fd t fd = is_open t fd

-- add_new_fd, at the address that Malloc returned.
unfoldable pub add_new_fd :
    (fresh : ℕ)
    → (fsp : Option ℕ) → (osfd : ℕ) → (fsfd : ℤ) → (canon_path : CString)
    → (rel_path : Option CString) → (ino : Option ℕ) → Fds
    → Fds
add_new_fd fresh fsp osfd fsfd canon_path rel_path ino s = record {
  files = store s.files fresh (
      some (record {
        path = canon_path;
        rel_path = rel_path;
        ino = ino;
        fsp = fsp;
        f_pos = pos 0;
        nshared = 1;
      }));
  table = record s.table {
    fd_tab = set s.table.fd_tab osfd (some fresh);
    fsfd = set s.table.fsfd osfd fsfd;
  };
}

-- nshared--, and the file is freed at 0. A count of 0 fails the assertion nshared >= 0 behind it.
abbrev pub unshare : OkfsFile → Option (Option OkfsFile)
unshare f =
    if f.nshared == 0
    then none
    else if f.nshared == 1
    then some none
    else some (some (record f { nshared = f.nshared - 1 }))

-- okfs_close_fd; `none`: no descriptor, a file that is freed already, or a failing assertion.
unfoldable pub close_fd : ℕ → Fds → Option Fds
close_fd fd s = elim (slot s.table.fd_tab fd) [
  | none ↦ none
  | some p ↦ elim (s.files p) [
    | none ↦ none
    | some f ↦ elim (unshare f) [
      | none ↦ none
      | some f' ↦ some (record {
        files = store s.files p f';
        table = record s.table {
          close_on_exec = set s.table.close_on_exec fd false;
          fd_tab = set s.table.fd_tab fd none;
        };
      })
    ]
  ]
]

-- nshared++ of the file at an address; `none` where it is freed.
unfoldable pub share : ℕ → Files → Option Files
share p files = elim (files p) [
  | none ↦ none
  | some f ↦ some (store files p (some (record f { nshared = f.nshared + 1 })))
]

abbrev pub fsfd_at : List ℤ → ℕ → ℤ
fsfd_at l fd = elim (get_elem? l fd) [ none ↦ pos 0 | some x ↦ x ]

-- okfs_do_dup for newfd >= 0; `none`: no old descriptor, or its file is freed.
unfoldable pub do_dup : (oldfd newfd : ℕ) → Fds → Option Fds
unfolding share
do_dup oldfd newfd s = elim (slot s.table.fd_tab oldfd) [
  | none ↦ none
  | some p ↦ elim (share p s.files) [
    | none ↦ none
    | some files ↦ some (record {
      files = files;
      table = record {
        fd_tab = set s.table.fd_tab newfd (some p);
        close_on_exec = set s.table.close_on_exec newfd false;
        fsfd = set s.table.fsfd newfd (fsfd_at s.table.fsfd oldfd);
      };
    })
  ]
]

-- okfs_dup, after the system's dup of the open descriptor `oldfd` returned `ret`: the new state and
-- the value that the process gets.
unfoldable pub dup : (open_max oldfd : ℕ) → (ret : ℤ) → Fds → Option (Fds × ℤ)
dup open_max oldfd (negsuc e) s = some (s, negsuc e)
dup open_max oldfd (pos newfd) s =
    if leb open_max newfd
    then some (s, neg emfile)
    else elim (do_dup oldfd newfd s) [ none ↦ none | some s' ↦ some (s', pos newfd) ]

-- if (fd_tab[newfd]) okfs_close_fd(slave, newfd)
pub close_if_open : ℕ → Fds → Option Fds
close_if_open fd s = elim (slot s.table.fd_tab fd) [ none ↦ some s | some p ↦ close_fd fd s ]

-- if (oldfd is open) okfs_do_dup(oldfd, newfd)
pub dup_if_open : (oldfd : ℤ) → (newfd : ℕ) → Fds → Option Fds
dup_if_open (negsuc n) newfd s = some s
dup_if_open (pos oldfd) newfd s = elim (slot s.table.fd_tab oldfd) [
  | none ↦ some s
  | some p ↦ do_dup oldfd newfd s
]

-- okfs_dup2
unfoldable pub dup2 : (open_max : ℕ) → (oldfd ret : ℤ) → Fds → Option (Fds × ℤ)
unfolding close_if_open dup_if_open
dup2 open_max oldfd (negsuc e) s = some (s, negsuc e)
dup2 open_max oldfd (pos newfd) s =
    if leb open_max newfd then some (s, neg emfile) else elim (close_if_open newfd s) [
      | none ↦ none
      | some s1 ↦ elim (dup_if_open oldfd newfd s1) [ none ↦ none | some s2 ↦ some (s2, pos newfd) ]
    ]

-- The loop of add_slave: every file that the parent has open is shared once more, for each of its
-- descriptors.
pub share_all : List (Option ℕ) → Files → Option Files
share_all [] files = some files
share_all (none ∷ l) files = share_all l files
share_all (some p ∷ l) files = elim (share p files) [ none ↦ none | some f ↦ share_all l f ]

-- What add_slave does with descriptors: the child gets copies of the parent's tables.
unfoldable pub inherit : Fds → Option (Files × FdTable)
unfolding share_all
inherit parent = elim (share_all parent.table.fd_tab parent.files) [
  | none ↦ none
  | some files ↦ some (files, parent.table)
]

abbrev pub flag_at : List Bool → ℕ → Bool
flag_at l fd = elim (get_elem? l fd) [ none ↦ false | some b ↦ b ]

-- The loops over the descriptors fd, ..., fd + n - 1 of after_execve (`only` is close_on_exec) and of
-- change_slave_state (all descriptors).
pub close_from : (only : List Bool → ℕ → Bool) → (fd n : ℕ) → Fds → Option Fds
unfolding close_if_open
close_from only fd zero s = some s
close_from only fd (suc n) s =
    elim (if only s.table.close_on_exec fd then close_if_open fd s else some s) [
      | none ↦ none
      | some s' ↦ close_from only (fd + 1) n s'
    ]

-- after_execve, where execve succeeded
unfoldable pub after_execve : (open_max : ℕ) → Fds → Option Fds
unfolding close_from
after_execve open_max s = close_from flag_at 0 open_max s

-- change_slave_state to SLAVE_ZOMBIE
unfoldable pub close_all : (open_max : ℕ) → Fds → Option Fds
unfolding close_from
close_all open_max s = close_from (λ l fd. true) 0 open_max s
