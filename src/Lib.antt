-- ===== src/Lib.antt =====
-- Models of the C programs of the labs, with the theorems that make them correct.
--
-- LAB4_cachelab/csim.c, a cache simulator: Cache.antt has the masks, the loop of `access_mem` over
-- a set (`scan`), its three ways to end (`finish`), the reading of a trace line and the counters
-- of `run`. Cache/Address.antt is about addresses, Cache/Search.antt about the loop,
-- Cache/Access.antt and Cache/Invariant.antt about one access, Cache/Run.antt about a trace. The
-- array is a function from indices, and a theorem says that the indices are in range. `strtol` is
-- a parameter. What `-v` prints, `main` and the files are not modelled. `time` is a number; the
-- theorems ask that it stay below 0x7fffffff, where the source's `int` ends and its search for a
-- victim starts.
--
-- LAB5_tshlab/tsh.c, a shell with job control: Shell.antt has the job list and its operations,
-- with a pointer into the array `jobs` as an index; Shell/Control.antt the handlers of SIGCHLD,
-- SIGINT and SIGTSTP and `do_bgfg`; Shell/Steps.antt `eval` and `waitfg` as steps, since signals
-- arrive between them. Shell/Lookup.antt, Shell/Capacity.antt and Shell/Ids.antt are about the
-- list, Shell/Slots.antt, Shell/Foreground.antt and Shell/Front.antt about runs. Shell/Line.antt
-- has `parseline` and `builtin_cmd`, Shell/Print.antt the signal-safe printing, with their
-- theorems below them. `atoi`, `isdigit` and `kill` are parameters, `waitpid` is a list of
-- reports, `fork` a step that picks any positive process ID. SIGCHLD may come
-- between any two steps, also before `do_bgfg` reads the pid that `waitfg` waits for. A line that
-- the array of `parseline` has no room for is `none`.
--
-- LAB0_cprogramminglab/queue.c, a queue as a linked list: Queue.antt has the operations over a
-- heap of elements, in which a touch of a freed cell is a fault. The queue structure is a value,
-- NULL is `none`, `malloc` is an argument. Queue/Chain.antt says what a well-formed queue is,
-- Queue/Ends.antt is about insertion and removal, Queue/Reverse.antt and Queue/Free.antt about the
-- two loops, which take as many rounds as the size says. The size is a number, not a wrapping
-- `int`.
--
-- LAB0_cprogramminglab/harness.c, the malloc and free of the queue tests, with `report_event`
-- of report.c: Harness.antt has the operations over a memory of blocks with header, payload and
-- footer. Harness/Chain.antt says what the list of allocated blocks is, Harness/Alloc.antt is
-- about `allocate_memory`, Harness/Search.antt about `find_header`, Harness/Free.antt about
-- `test_free`, with Harness/Unlink.antt, Harness/Neighbours.antt, Harness/Release.antt and
-- Harness/Reports.antt below it, Harness/Settles.antt about freeing all blocks, and
-- Harness/Errors.antt about pointers that are not allocated. The search for a block is given as
-- many rounds as blocks are allocated, which is the length of the list. A memory holds whole blocks by
-- their addresses: an access through any other pointer ends the run as `stray`. `malloc` and `random`
-- are arguments, and the jump of `trigger_exception` goes on with the other return of
-- `exception_setup`.
--
-- LAB0_cprogramminglab/console.c, the command console of the queue tests: Console.antt has the lists
-- of commands and options and the interpreter, Console/Args.antt `parse_args` with its theorems,
-- Console/Input.antt the stack of files, `readline` and the loop of `run_console`.
-- Console/Lists.antt is about the lists, Console/Input/Lines.antt about lines,
-- Console/Input/Settled.antt and Console/Input/Ends.antt about the end of the loop. Commands from
-- elsewhere, `strtol` and the files are a record of functions; `read` gives the pieces of a file;
-- every setter is NULL, as in the program; a list says in which rounds `select` reports input, since
-- it may be interrupted or fail; what is printed, the times and network sockets are left out.
--
-- LAB1_datalab/bits.c, the puzzles on words and floats: Bits.antt has the functions on bit
-- patterns below 2 ^ 32, with the operators of C on words. Bits/Puzzles.antt compares the integer
-- puzzles with the reference functions of LAB1_datalab/tests.c, Bits/Floats.antt is about
-- `float_half`, Bits/Truncate.antt about `float_f2i`, Bits/Zeros.antt and Bits/Lengths.antt about
-- `howManyBits`. A float is finite if its exponent field is
-- below 255, and its magnitude is counted in units of 2 ^ -149. A shift by a negative amount is
-- `none`.
--
-- LAB4_cachelab/trans.c, matrix transposes: Transpose.antt has `transpose_submit` with its three
-- branches, `trans` and `is_transpose`, with a flag for accesses out of range.
-- Transpose/Loops.antt is about the loops, Transpose/Square.antt, Transpose/Narrow.antt and
-- Transpose/Other.antt about the branches for 32 by 32, 61 by 67 and other sizes,
-- Transpose/Simple.antt about the whole.
--
-- LAB6_malloclab/mm.c and memlib.c, a malloc package: Malloc.antt has the memory as words at
-- multiples of 4 between `start_brk` and `brk`, outside of which an access is a fault, and the
-- macros; Malloc/Lists.antt the segregated lists, Malloc/Blocks.antt splitting and coalescing,
-- Malloc/Package.antt what the package exports and Malloc/Check.antt its checker. Addresses wrap
-- at 2 ^ 32. A loop over a list has as many rounds as the heap has bytes. Malloc/Lists/Chain.antt
-- says what a well-formed list is, Insert.antt, Put.antt, Remove.antt and Fit.antt beside it are
-- about the three operations, Malloc/Sizes.antt about sizes and a full heap. The array of the heap
-- and `memcpy` are parameters.
--
-- LAB6_malloclab/mdriver.c, the driver that tests a malloc package: Driver.antt has the range list
-- and `eval_mm_valid` over any package, given as a record of operations, Driver/Trace.antt
-- `read_trace` over the words of a file. Driver/Ranges.antt is about the range list,
-- Driver/Live.antt and Driver/Outstanding.antt about the ranges of the ids in use, Driver/Valid.antt
-- and Driver/Data.antt about the check of a trace, Driver/Trace/Print.antt about its text. A file
-- with a number from 2 ^ 31 on, which the source's `int` does not hold, is a result of its own. The
-- runs for speed and utilisation, the tables and the printing are not modelled.
--
-- LAB6_malloclab/fcyc.c, the timing of a function by its best measurements: Timer.antt has the
-- sampler and the loop of `fcyc`. Timer/Sort.antt is about sorted lists, Timer/Best.antt about
-- `add_sample`, Timer/Ends.antt about the loop. A measurement is a number of cycles; the comparison
-- with a tolerance, which is in floating point, and the measurements are arguments. The clearing of
-- the cache and the setters of parameters are not modelled.
--
-- LAB7_proxylab/proxy.c and tiny/tiny.c, a web proxy and a web server: Web.antt has what they
-- share (`clienterror` and `read_requesthdrs` are the same text in both), Texts.antt the C
-- library's functions on texts, Web/Proxy.antt `process_request` and Web/Tiny.antt `doit`, from
-- the first line of a request to the list of what they do for it. Web/Proxy/Forward.antt and
-- Web/Tiny/Answers.antt are about them. A text holds no NUL. A client is the list of the lines
-- that it sends before it closes its side, a server a parameter that answers in pieces; `stat` and
-- the mapping of a file are parameters. A `sprintf` whose argument is its own result appends. A
-- text that does not fit its array of 8192 characters, and a read of what was never written, is
-- `faults`; a loop at the end of the input is `hangs`. tiny/cgi-bin/adder.c is not modelled.
--
-- Not modelled: the drivers, consoles, timers and fixtures around these programs, among them
-- LAB0_cprogramminglab/qtest.c, LAB1_datalab/btest.c,
-- LAB4_cachelab/tracegen.c and test-trans.c, which run or time the
-- code above and print; the bomb and the attack, which are machine code; and csapp.c, the
-- textbook's wrappers of system calls.
pub mod Bits
pub mod Cache
pub mod Console
pub mod Driver
pub mod Harness
pub mod Malloc
pub mod Prelude
pub mod Queue
pub mod Shell
pub mod Texts
pub mod Timer
pub mod Transpose
pub mod Web
