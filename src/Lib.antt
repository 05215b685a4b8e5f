-- ===== src/Lib.antt =====
-- A model of the C tools of this repository, with the theorems that make them correct.
--
-- Each tool is a program of its own, in a directory of its own, and so is its model; the tools
-- share nothing but Base. A tool that talks to the system is a function of an `Os` (Base.Effects),
-- which answers each call by any function of the calls before it; a theorem about every `Os` holds
-- for every behaviour of the system. The calls and their answers are kept in a history, newest
-- first, and what a program does to the system is a function of that history.
--
-- Base: Tests (Boolean tests on numbers), Lists (lists, bytes), Int (signed integers), Effects (the
--   history of calls, and programs over it), Counters (words, and arrays of counters).
-- Mkdot, for mkdot/mkdot.c: Target is target_dst over the bytes of a path, with its buffer; Copy the
--   loop of copy_file; Install copy_file, link_file and install_handle over system calls; Main the
--   options, topics and operands. Renames and Limits are about target_dst, Safety about the changes
--   of the file system, Options about main. The walk of nftw is a list of entries.
-- Keyi, for keyi-sudo/keyi.c: Env is env_root, env_opts and env_editor; System the calls; Edit
--   copy_one and save_one; Run set_root, set_user, run_cmd, run_shell and main with its edit.
--   EnvLaws, EditLaws, Privilege and Outcome are about them: the environment, the files of an edit,
--   the credentials that programs are started with, and the exit status of an edit.
-- AlsaPcm, for check-my-alsa/alsa-pcm.c, alsa-pcm.h, spa-dll.h and alsa-pcm-sink.c: State is struct
--   alsa_state and the calls; Setup opens a stream and negotiates its format; Stream prepares,
--   starts and recovers it and reads its room; Clock is update_time and the times of wakeups; Cycle
--   writes, wakes up, pauses, starts and closes; Init is alsa_state_init; Doubles is spa-dll.h.
--   Programs has the laws of programs; Recovery, Room, Timing, Format and Frames are about single
--   functions, Quiet, Life and LifeSteps about what they hold of the system, and Reach about any
--   sequence of them, as a relation on states.
-- SedMtime, for check-sed-mtime/check_sed_mtime.c: Run is each of its functions, with the calls of
--   the system that they make; Counts is about what the counters and the exit status mean.
-- JumpOrExec, for jump-or-exec/jump-or-exec.c: Windows is the list of windows under the events of the
--   compositor, and select_window; Main the options, and what main does with the windows; Select and
--   Jumps are about which window is chosen, and which windows there are.
-- PulseMonitor, for pulse-monitor/main.c: Queue is the queue of events as nodes of a heap with
--   ev_head and ev_tail, and sub_cb; Loop the loop of main, the callback and the signal handler as
--   steps that interleave, each with the lock; Query the queries of the server with their callbacks;
--   Output process_event; Calls the calls of the server; Main the connection, the subscription and
--   main. Linked, Arrivals, Fifo and Kept are about the heap, Safety and Alive about any interleaving
--   of the steps, Lines and Prints about what one event does, Results about queries, and Told, Waits
--   and Ready about the start and what the server says to it.
-- PipewireXrun, for pipewire-xrun/main.c: Config is bench_config with its options and checks; Stats
--   the counters and percentiles; Process the callbacks on_process and state_changed with the buffers
--   they fill; Bench the set-up with its cleanup, the loop and the exit status. Powers, Counts,
--   Percentiles, Fits and Outcome are about them.
-- Applets, for check-my-alsa/main.c, app-common.c, app-xrun.c and app-jack.c: Registry is the list of
--   applets, Options the options of a test (struct pcm_setup), Dispatch main, Xrun the counters, the
--   loop and the exit status of the xrun applet, over what pcm_sink_iterate does in each round, Jack
--   the jack controls that are bound and their events. Order and Lookup are about the list and what
--   main finds in it, Bounds about the options, Tally about the counters, Status and Course about the
--   exit status and the loop, Chosen, Plugged, Lines, Refreshed, Current and Printed about the
--   jack controls.
--
-- Numbers: a machine word is a natural number with its remainder by 2 ^ 32 or 2 ^ 64 written out. A
-- C double is a type with operations (AlsaPcm.Doubles), of which a theorem takes what it needs as a
-- hypothesis, in a form that NaN meets too.
--
-- Bounds: alsa_recover tries to resume five times, as its source does; the loop of copy_file runs
-- over the list of what read answers; the rounds of check_sed_mtime.c are as many as its argument
-- says. There is fuel in pulse-monitor only, as an argument. The waits of a query, and those for the
-- connection and the subscription, are as many as it says, and a query needs two more than the
-- wakeups that do not end it; the loop of main takes as many steps as it says, some for each event
-- in the queue and some for what main is doing.
-- All else is recursion on the data.
--
-- Not modelled: the text of messages and reports; what getopt, strtol, regcomp, regexec, nftw,
-- alsa-lib, PulseAudio, PipeWire and the kernel do inside, which are the answers of the `Os`, or
-- arguments such as Library, Values, Real and Spa; the other applets of check-my-alsa; tty2wayland,
-- display-test and the experiments with wayland, whose logic stands in libraries that are not here;
-- and the tools in other languages.
pub mod Base
pub mod AlsaPcm
pub mod Keyi
pub mod Mkdot
pub mod SedMtime
pub mod JumpOrExec
pub mod PulseMonitor
pub mod PipewireXrun
pub mod Applets
