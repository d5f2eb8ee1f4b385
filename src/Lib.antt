-- ===== src/Lib.antt =====
-- OKFS, a file system in user space: a tracer runs programs under ptrace, stops each system call that
-- names a file, and answers it itself where the file lies on one of its own mounted file systems.
--
-- The parts and their files:
--
-- Memory (src/memacc.c): the tracer reads and writes the memory of the traced process by words of
-- four bytes. Ptrace is the interface of PTRACE_PEEKDATA and PTRACE_POKEDATA, with their documented
-- laws; memset, memget, rpl_mem, rpl_known_str, restore_mem and getstr are slave_memset to
-- slave_getstr. getstr runs on fuel, one unit for each word; more than a quarter of the length of
-- the string is enough.
--
-- Namei (src/filesystems/vfs_namei.c): canonical() as a loop over the variables dest, rpath_limit,
-- num_links and end. The path under construction is a list with its last character first. lstat and
-- readlink are arguments that work on a state, since they fill the cache. The loop runs on fuel, one
-- unit for each component; the length of the name and twenty times PATH_MAX are enough.
--
-- Dcache (src/filesystems/vfs_dcache.c, vfs_dcache.h): the tables of struct okfs_superblock. Inodes
-- are shared by pointer in the program, so they live in a store here and are named by their place.
-- The kernel's full_name_hash is a parameter. Vfs/Entries has the two operations that also look files
-- up, cache_add_entry and cache_remove_entry.
--
-- Fd (src/filesystems/vfs_fd_calls.c, vfs_open.c, src/task.c, src/control.c): descriptors, and the
-- files that several descriptors of several tasks share. A file is named by its address in a store;
-- none in the store is freed memory, and none as a result is a use of a null pointer or of freed
-- memory. Fd/System runs all tasks together.
--
-- Vfs (src/filesystems/vfs_path_calls.c, vfs_stat.c, virtualfs.h): which file system a path belongs
-- to, and the handlers of the system calls on paths (Vfs/Calls, Vfs/Pairs, Vfs/Stats), put together
-- as in the table of src/entry.c by Vfs/Table. Env holds what they stand on: the system's own calls
-- and those of the mounted file systems, which are arguments and may answer anything; those of a file
-- system may change the caches too (Shared), as lstat of shfs does. A handler works
-- on the state Vfs: the world, the caches, and the fields cwd, callfs and return value of the task.
-- It gives none where canonical() is out of fuel or a bad pointer is read. Vfs/OpenFiles and
-- Vfs/FileCalls are the calls on open files of src/filesystems/vfs_fd_calls.c, on the state FdVfs,
-- which has the descriptors of the task too. Vfs/Opening is okfs_do_open of vfs_open.c, and Vfs/Opened
-- says what it finds out of a file and makes of the answer.
--
-- Task (src/task.c, src/task.h, okfs_signal.c, control.c, okfs.c): the traced processes. A task is named
-- by its pid; its memory is a Tracee of Memory, and cpu are the registers that the process itself has,
-- which the program sets by PTRACE_SETREGS. Task/Signals is okfs_signal.c, Task/Calls the arguments and
-- values of system calls, Task/Wait the wait calls of control.c, and Task/Loop handle_syscall,
-- check_status and the body of the loop of guard_slaves, over any call table. Task/Children says what
-- wait4() tells of children; a group of processes is the field gid there, as in the program. Signals that OKFS sends
-- are a list in the state Okfs; none is a run in which OKFS ends, or follows a null pointer.
-- remove_slave runs on fuel, one unit for each task.
--
-- Readdir (src/filesystems/vfs_readdir.c): the records that getdents and getdents64 write, as lists of
-- bytes, and the two handlers.
--
-- Localfs (src/filesystems/localfs/localfs.c): the operations of localfs as an FsEntry over the
-- system's calls. Localfs/Host says which path the system sees.
--
-- Shfs (src/filesystems/shfs/shfs.c): Shfs/Convert is convert_path, which works in place on a buffer,
-- Shfs/Command do_command over the interface Transport of proc.c, Shfs/Ops the operations that are one
-- command or two, and Shfs/Clock strctime, whose loop over the years has as much fuel as there are
-- days. Shfs/Proc is sock_read and sock_write of proc.c over read() and write() of the system, whose loops
-- need as much fuel as there are bytes to go and EAGAIN to come. Shfs/Word says how a shell reads a
-- word.
--
-- Stat has struct stat and errno, Base the shared helpers, Tests the theorems on small examples.
--
-- Not modelled: times before 1970 in strctime, the handlers around okfs_do_open, fcntl, mmap, fchdir, mounting, fork but for descriptors, and
-- of shfs the listing of directories, read, write, readlink and statfs. The transport of shfs, the
-- start of the program, the simulation of root and the wrappers of src/lib are input and output.
-- ASSERT and TRACE are empty in the default build and have no counterpart, but for the assertion on
-- nshared. Path strings reach a handler as slave_getstr reads them.
pub mod Base
pub mod Memory
pub mod Stat
pub mod Namei
pub mod Dcache
pub mod Fd
pub mod Vfs
pub mod Task
pub mod Shfs
pub mod Localfs
pub mod Readdir
pub mod Tests
