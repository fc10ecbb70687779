-- ===== src/Lib.antt =====
-- pyuv: the Python binding of libuv, as C code that keeps two owners of every object in step: the
-- interpreter, which counts references, and libuv, which calls back later. This library models
-- that code, src/*.c of the repository, with reference counts and memory blocks explicit in its
-- state.
--
-- The parts. A handle (src/handle.c) embeds a uv_handle_t; its destructor may have to close it
-- first and let the object live until libuv's callback. The watchers (src/check.c, src/idle.c,
-- src/prepare.c, src/signal.c, src/poll.c, FSEvent and FSPoll of src/fs.c) and the streams
-- (src/stream.c, src/udp.c) are handles with callbacks; a started one holds a reference to itself.
-- Writes and sends allocate a context that libuv owns until it calls back. TCP and Pipe
-- (src/tcp.c, src/pipe.c) add requests to connect, and Process (src/process.c) a child that libuv
-- watches. Reads share one slab for each loop. Requests (src/request.c, src/loop.c) are objects
-- that libuv's thread pool owns for a while. File system calls (src/fs.c) are requests that run at
-- once or in the thread pool. What a user's function raises goes to the loop's excepthook
-- (src/common.c). Addresses (src/common.c) travel between Python's tuples and struct sockaddr.
--
-- The files. Py.antt: objects, reference counts, exceptions, and the RAISE_IF macros of
-- src/pyuv.h. Error.antt: the exception types; Error/Classes.antt: src/error.c; Error/Errno.antt:
-- src/errno.c. Uv.antt: libuv's handle as a parameter. Handle.antt and its children: src/handle.c,
-- its definitions in Handle/Defs.antt. Watcher.antt: the code that the five watcher files repeat,
-- with an instance for each file in Watcher/Kinds.antt and their destructor and whole life in
-- Watcher/Lifecycle.antt; Watcher/Files.antt: FSEvent and FSPoll of src/fs.c; Watcher/Async.antt:
-- src/async.c. Timer.antt: src/timer.c, over a parameter `Doubles` for the machine's floating
-- point numbers; Timer/Life.antt: a timer as one of the watchers. Buffer.antt: pyuv__alloc_cb and
-- the lock of the slab. Stream.antt: reading (Stream_func_start_read, stop_read,
-- UDP_func_start_recv, stop_recv and the data callbacks); Stream/Writes.antt: write, writelines,
-- send, shutdown and their callbacks. Address.antt: pyuv_parse_addr_tuple and makesockaddr.
-- Loop.antt: new_loop, Loop_tp_dealloc and Loop_func_default_loop of src/loop.c, and
-- Loop/Methods.antt its run, handles, __dict__ and excepthook. Setup.antt: init_pyuv of
-- src/pyuv.c. Util.antt: src/util.c, SignalChecker (Util/Checker.antt) and the lists of processors
-- and interfaces (Util/Tables.antt). Uncaught.antt: handle_uncaught_exception. Process.antt:
-- src/process.c, StdIO, the preparation of spawn over arrays of strings in memory, its label
-- cleanup, and the Process object. Thread.antt: src/thread.c, against an automaton of a
-- primitive's life. Connections.antt: src/tcp.c, src/pipe.c and src/abstract.c, over the requests
-- to connect that libuv owns. Request.antt: the base class of src/request.c; Request/Work.antt:
-- WorkRequest, Loop_func_queue_work and its two callbacks. Fs.antt: FSRequest and
-- pyuv__process_fs_req of src/fs.c; Fs/Calls.antt: the body that the functions of src/fs.c share,
-- FS_func_read and FS_func_write; Fs/Functions.antt: the others one by one; Fs/Contents.antt: what
-- stat_to_pyobj and the loop of scandir put into their values. Dns.antt: src/dns.c with GAIRequest
-- and GNIRequest of src/request.c. Udp.antt: the methods of src/udp.c that set a socket up, and
-- try_send. Tty.antt: src/tty.c. Files named Examples hold concrete runs.
--
-- How the code is translated. A function becomes a function on an explicit state with the fields
-- of the C struct; `Result` tells a return from a raised exception and from an aborted process (a
-- failed ASSERT, Py_DECREF of NULL). Each object is its address, and `Refs` gives its reference
-- count, so that Py_INCREF and Py_DECREF are updates of a function; counts are natural numbers
-- without a bound. An object dies where its last reference goes: of handles that is a step of its
-- own (Handle/Lifecycle.antt), of requests it is part of `release`. A call of the user's function
-- is a parameter that may change the whole state.
--
-- Parameters. libuv is vendored and not modelled: the record `Libuv` keeps what its documentation
-- says of uv_close, uv_is_closing and the close callback, `Call` of a function that returns an
-- error code and does not close the handle, `Inet` of its address conversions; Uv.phases and the
-- tables of the examples satisfy them. Results of PyArg_ParseTuple, allocations and tests such as
-- PyCallable_Check are arguments. Constants are the code's: a slab of 65536 bytes, 4 views without
-- allocation, INT_MAX for the number of buffers. The largest C long is a parameter of the setters
-- of sizes, and what their `int` keeps of it is written out. Only pyuv__drain_poll_fd needs fuel,
-- one round for each call of recv(); every other loop runs over a list.
--
-- Not modelled: the cycle collector's tp_traverse, weak references, the GIL (callbacks run one at
-- a time, as the code arranges), type tables, and the functions of src/util.c that convert one
-- answer of libuv, the memory of the address lists that libuv hands out, and what the interpreter
-- does where a SystemExit ends the process.
pub mod Base
pub mod Error
pub mod Py
pub mod Uv
pub mod Handle
pub mod Watcher
pub mod Timer
pub mod Buffer
pub mod Loop
pub mod Stream
pub mod Udp
pub mod Tty
pub mod Address
pub mod Request
pub mod Process
pub mod Thread
pub mod Fs
pub mod Connections
pub mod Dns
pub mod Util
pub mod Setup
pub mod Uncaught
