-- ===== src/Lib.antt =====
-- xlib: a C library of portable calls for files, processes, threads, sockets and events. This
-- development models parts of its sources under src/ and proves what makes them correct.
--
-- Parts and files.
-- FilePath: x_path_join, x_path_basename and x_path_is_absolute of src/x_filesystem.c, in the POSIX
-- and the Windows build (Platform). A C string is its list of bytes; a buffer is a list of bytes
-- that memcpy changes in place, and a call that would write outside gives none.
-- CommandLine: the quoting of Windows arguments in src/x_process.c, from
-- x_process_quoted_length to x_process_build_command_line.
-- Event: the event loop of src/x_event.c in its epoll build. State is the loop with the entries of
-- its epoll instance; a pointer to a source is its address. Event holds the sources and the calls
-- that add and remove them, Event/Dispatch timers, ready sockets and x_event_loop_run. The system,
-- the objects that are polled and the callbacks are an oracle (Env), asked with the number of the
-- call; a callback answers with calls on the loop, so that it may add and remove sources while the
-- loop runs over them. The invariant of a loop (IsValid) and what is assumed of the system (IsSystem)
-- are in Event/Valid; Event/Follows, Reserve, Add and Remove follow the calls that add and remove
-- sources, Event/Dispatch/Callbacks and Keeps the callbacks and timers, Ends their end, Advance and
-- Timeout the due times, and Run the whole loop.
-- Ledger: the resources that a call takes from the system and gives back (memory, descriptors,
-- views, handles), as a list; a resource is named after the call that took it, and giving back one
-- that is not held is a fault. The system is an oracle that answers each call by a status.
-- Ledger/Triple has the rules by which a program keeps account of them.
-- Memory: virtual memory and mapped files of src/x_memory.c, in both builds.
-- Ipc: shared memory and named semaphores of src/x_ipc.c, in both builds.
-- Thread: threads, locks and keys of src/x_thread.c: what they take and give back.
-- Semaphore: x_semaphore_wait and x_semaphore_post of src/x_thread.c as moves of any number of
-- threads, an access to the fields at a time. The mutex and the condition are the system's: a thread
-- may be woken up without a signal, and each call may fail. Semaphore/Counter compares what the
-- threads do with a counter.
-- Process: child processes, pipes and the environment of src/x_process.c on the ledger, in both
-- builds: Process/Start, Process/Pipeline, Process/Environment; Process/Wait for what a process
-- remembers of its child, with a fuel for waitpid that is interrupted; Process/Search for the search
-- of PATH, where malloc is a parameter; Process/Redirect for the descriptors of the child, where
-- open is a parameter; Process/Transfer for the counts of bytes.
-- Network: addresses of src/x_network.c as the bytes of Linux's sockaddr structures, with inet_pton
-- as a parameter; Network/Socket for sockets on the ledger; Network/Transfer for counts and
-- timeouts.
-- Files: files, directories and asynchronous reads of src/x_filesystem.c on the ledger, in both
-- builds; Files/Access and Files/Paths for the other calls on files and paths; Files/Watcher for the
-- file watcher, by the answers of stat; Files/Listing for the entries of a directory, by what
-- readdir, FindNextFileW and stat answer, and a caller that reads them all on fuel, one call more
-- than there are names being enough in either build; Files/ReadAll for the thread that reads a whole
-- file, with malloc and read as parameters and fuel above the size of the file, since each read
-- gives a byte at least.
-- Event/Create, Event/Destroy: x_event_loop_create and x_event_loop_destroy of src/x_event.c on the
-- same ledger.
-- Event/Cancel: x_event_loop_cancel, stop and wake by other threads while x_event_loop_run runs, as
-- moves of a step relation; the datagrams of the wake-up sockets are a count.
-- Event/Select: x_event_loop_wait_sockets of the build with select: the sets, with their limits of
-- 1024 (POSIX, Linux) and 64 (Windows), the call and the flags, without the callbacks.
-- Wrapper: the classes file, mapped_file and process of include/xlib/xlib.hpp, as programs on
-- numbered variables over the C functions of Files, Memory and Process.
-- Transfers: the counts of bytes of pipes, files and sockets together.
-- DynamicLibrary: src/x_dynamic_library.c on the ledger, in both builds, with the text of the last
-- error as 512 bytes; the messages of the system are parameters, by
-- the error that they are for, and so is what GetLastError gives behind free.
-- Clock: clocks and sleeps of src/x_time.c; nanosleep is an oracle. A sleep runs on fuel: it returns
-- once a call is not interrupted, which sleep_ms-Slept assumes of one of the calls within the fuel.
-- Hooks: the hooks of src/x_diagnostics.c and the allocator of src/x_allocator.c, as a program of
-- calls and what is seen of it; what vsnprintf prints is a parameter.
-- Common: numbers, lists, bytes, errno.
--
-- Numbers are natural numbers; where the source computes in size_t or uint64_t the wrap-around is
-- written out (add_word, mul_word).
--
-- Fuel: grow runs on 65 rounds, while a valid loop needs one or two; advance
-- runs on now + 1 rounds, and advance_ends shows that this is enough. dispatch_timers takes its fuel
-- as an argument, and dispatch_timers-Returns shows that more than 2^60 rounds, the size of the largest
-- array, are enough. loop_run takes the number of its rounds as an argument: a loop with a source that
-- is never removed does not return in the source either, and the result is endless there.
--
-- Not modelled: the kqueue build of the event loop, and the callbacks of the build with select;
-- multicast groups; TLS hooks; the terminal; hooks that call the library themselves; callbacks of
-- the event loop that run or destroy it; the rest of the C++ wrappers; the conversion to UTF-16.
pub mod Clock
pub mod CommandLine
pub mod Common
pub mod DynamicLibrary
pub mod Event
pub mod FilePath
pub mod Files
pub mod Hooks
pub mod Ipc
pub mod Ledger
pub mod Memory
pub mod Network
pub mod Process
pub mod Semaphore
pub mod Thread
pub mod Transfers
pub mod Wrapper
