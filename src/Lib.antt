-- ===== src/Lib.antt =====
-- A verification library for the `subprocess` crate, which runs child processes and talks to them.
--
-- The crate's parts. `Popen` (src/popen.rs) starts a child with the system calls of src/posix.rs,
-- waits for it and signals it; on Windows, with those of src/win32.rs, it first joins the arguments
-- into one command line. The communicator (src/communicate.rs) feeds a child's standard input and
-- reads its outputs at the same time, on Unix with poll(2) and on Windows with a thread for each
-- stream. The builders (src/builder.rs) start commands alone or as a pipeline, and give their
-- processes to a communicator.
--
-- The files, by the code that they model:
--   Prelude, Prelude/*: shared names, lists over native numbers, results, 32-bit conversions.
--   OsCommon: `ExitStatus` and `StandardStream` of src/os_common.rs.
--   Posix/Os: the system calls of the communicator and of `poll`, an argument of what uses them.
--   Posix/Poll: `posix::poll` of src/posix.rs. `poll_loop` is its `loop`; its first argument bounds
--     the rounds, and one for every 2 ^ 31 - 1 milliseconds and one more are enough.
--   Posix/Process: `waitpid` and `decode_exit_status` of src/posix.rs over waitpid(2).
--   Posix/Exec: `split_path`, `CVec`, `PrepExec` and `prep_exec` of src/posix.rs. The iterator of
--     `split_path` is `next_piece` on the path that is left, its `while` and the iteration bounded by
--     the path's length and one.
--   Posix/Wrappers: the functions of src/posix.rs that make one call of libc each. They are what
--     `setup_streams` and `do_exec` call, and keep what these need of them if libc does.
--   Popen/State: the types of src/popen.rs. A `File` is its descriptor.
--   Popen/Child: `waitpid`, `os_wait`, `os_wait_timeout`, `poll`, `send_signal`, `detach` and `drop` of
--     src/popen.rs. Times are nanoseconds. A wait of `dur` needs one look at the child for each
--     millisecond and one more, a blocking wait a round of its `while` for each call of waitpid(2)
--     that tells of another pid, and two more.
--   Popen/ExecStatus: the four bytes of the exec-fail pipe in `os_start` of src/popen.rs.
--   Popen/Streams: `Redirection` and `setup_streams` of src/popen.rs. A statement with `?` is an action
--     that may return from the function with an error.
--   Popen/Launch: `do_exec` of src/popen.rs, the steps of the child before exec.
--   Popen/Start: `create` and the parent's side of `os_start` of src/popen.rs.
--   Popen/Environment: `format_env` and `format_env_block` of src/popen.rs.
--   Builder/Exec and Builder/Pipeline: `Exec` and `Pipeline` of src/builder.rs, their settings and
--     `popen`. `Popen::create` is an argument.
--   Builder/Session: `join`, the stream adapters, `communicate` and `capture` of `Exec`, with
--     `communicate_start` and `communicate_bytes` of src/popen.rs; its child Pipelines has those of
--     `Pipeline`. What they call of processes and communicators is the argument `Session`.
--   Builder/Display and Builder/Cmdline: `display_escape` and `to_cmdline_lossy` of src/builder.rs.
--   Communicate/Ready: `maybe_poll` of src/communicate.rs.
--   Communicate/Raw: `RawCommunicator`, `do_read` and the three statements of a turn of `read_into`.
--   Communicate/ReadLoop: `read_into` and `read`. The turns are bounded by the first argument; more
--     turns than bytes to be carried, and one more for each stream, are enough.
--   Communicate/Communicator: `communicate` and `Communicator` with its limits, of src/communicate.rs.
--   Communicate/Pipes and Communicate/Progress: what the operating system promises of pipes, as named
--     hypotheses. Communicate/Machine is a system that keeps them.
--   Communicate/Helpers: the helper threads of src/communicate.rs on Windows, `new` and `recv_until`.
--     A thread sends over a channel that holds nothing, so that an interleaving is the order in which
--     messages arrive: `Wait` says which thread is ready first, and how long its message takes.
--   Communicate/Gather: `read_into` and `read` on Windows. One turn for each message that the threads
--     have left, and one more, are enough.
--   Win32/Cmdline: `assemble_cmdline` and `append_quoted` of src/popen.rs over UTF-16 units.
--   Win32/Calls: the calls of src/win32.rs over the Windows API, which is an argument. A wait needs one
--     round for every 2 ^ 32 - 2 milliseconds and one more.
--   Win32/Child: `wait_handle`, `os_wait`, `os_wait_timeout`, `os_terminate`, `os_kill`, `poll` and
--     `drop` of src/popen.rs on Windows.
--   Win32/Start: `os_start` of src/popen.rs on Windows, behind `setup_streams`.
--
-- The conventions. A stateful operation takes the object and the world and returns them. A panic and
-- the end of the fuel are cases of `Run`, so that a theorem that a function returns excludes both.
-- The state of an operating system is abstract, and each theorem names what it needs of the calls.
-- `latest` is the last instant that it can represent: `Instant::now() + t` beyond it is a panic.
--
-- Not modelled: what fork and exec do to a process, `_exit`, the closing of files and the waiting for processes that an error drops,
-- `setup_streams` over the Windows calls, the copying of a builder (`clone`) and the conversions of its
-- arguments and results between kinds of strings, which change no bytes that the code looks at.

pub mod Prelude
pub mod OsCommon
pub mod Popen
pub mod Posix
pub mod Communicate
pub mod Builder
pub mod Win32
