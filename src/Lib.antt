-- ===== src/Lib.antt =====
-- MasterLib is a debugging library for macOS and iOS: it attaches to a process through its Mach task,
-- reads and writes its memory, loads and saves the registers of its threads, sets software and
-- hardware breakpoints, and receives the exceptions that they raise over the mach_exc protocol.
--
-- The parts, and the files that model them:
--
-- Mach, Mach/Memory, Mach/Steady, Mach/Ports: the calls of the system (vm_*, task_*, thread_*,
--   proc_*, sysctl, and in Mach/Ports those on ports, exception ports and threads of SetupHandler),
--   which no file of the repository defines, as a record `Kernel` of functions over any type of
--   states of the system; every call returns the next state. What the calls are documented to do is
--   stated in records of laws over an observer of that state: `MemoryLaws` (the bytes of each task),
--   `SuspendLaws` (the suspend counts), `DebugLaws` (the debug registers), `RegionLaws` and `FlatMap`
--   (the maps of a task), `StateLaws` (the structures of each thread) and `PortLaws` (the exception
--   ports). `indeterminate` is what an uninitialised object holds, and `reads_indeterminate` whether a
--   read of it gives that: the standard says that it is undefined behaviour. ExceptionCallback, which
--   reads a structure that is never loaded, and on the way the member active_ that is never assigned,
--   is a fault without it; elsewhere a read of such a member gives what it holds.
-- Host: src/host.h and the host classes of src/x64, src/armv7, src/aarch64. The compiler's macros
--   are a `Target`.
-- ThreadState and its children: src/thread_state.h and the four derived classes (Load, Save,
--   CurrentAddress, IsThumbMode, operator[], Description). A structure is the list of its words, and
--   a register a name with its place among them. Access has the reads and writes through a Register,
--   at a type of any size, on the little-endian bytes of the structure (Bytes); Description the text
--   as character codes, with digits on a fuel of 64, which no 64-bit number uses up. Names has the
--   lookup of a register by its name.
-- Process and its children: src/process.cc. Memory has ReadMemory and WriteMemory, Listing the
--   lookups of processes, Threads the platform and the thread lists, Regions the walk of GetRegions.
--   Lookup, Named and Others have what holds of the listings, of GetProcess by name and of Threads;
--   Protection has the protection of the pages that WriteMemory has written.
-- Breakpoint and its children: src/breakpoint.h, src/x64/breakpoint_x64.cc and
--   src/armv7/breakpoint_armv7.cc; a derived class is a constructor of `Kind`, which holds the
--   members that the class adds. X64Hardware/Dr7 has the bit fields of dr7_ctx, Slots the switches,
--   Armed what Apply leaves in them, Rounds the way from Apply to Reset.
--   Software has what the three classes of software breakpoints share, Nested several of them.
-- BreakpointHandler: src/breakpoint_handler.cc. The pointers of the vector lead into a store of
--   breakpoints, which a client shares; the store and the system are part of the handler's state.
--   Commands has sequences of calls. Race is
--   the step relation of InstallBreakpoint on the client's thread and BreakpointAtAddress on the
--   server's, over a std::vector with its capacity and its storage; one push_back, pop_back or round
--   of the loop is one step.
-- ExceptionHandler: src/exception_handler.cc, from catch_mach_exception_raise to the answer of
--   ExceptionCallback, whose client's callback is a parameter. Setup has SetupHandler, and Daemon
--   server_thread: mach_msg_server_once is a parameter with documented behaviour (`Served`), which
--   runs mach_exc_server of MachExc with the functions of this file as its callbacks. The loop never
--   ends, so it is given by the state after each number of rounds. Verdict has the answer that is meant for an
--   exception, Daemon/Raised the calls of a client that lead to it, Daemon/Refused the other calls of
--   a client. Debugger is the step relation of client calls, exceptions and the system, in any order,
--   one after the other.
-- MachExc: src/mach_excServer.c and src/mach_excUser.c. A message is its header and its 32-bit
--   words, as the packed structures overlay them; mach_msg, with the room for the reply, and the catch functions
--   are parameters.
--   Layout has the structures of src/mach_exc.h, by which the places of the words are known.
-- Disassembler: src/disassembler.cc and src/instr.h, with the functions of capstone as parameters.
-- Tests: a small machine that has the documented behaviour, and runs on it.
--
-- Code that can meet undefined behaviour is a `Run`, with `fault` for it (Base/Run). A method is a
-- function of the object and the state of the system, which returns both. Names follow the source;
-- an int that is returned as a bool goes through `to_bool`.
--
-- Numbers are natural numbers. Where the source can wrap, the wrap is written out: addresses at 2^64
-- and depths at 2^32 in GetRegions, the words of dr7_ctx and its sign extension, sizes and ids of
-- messages at 2^32. Negative error codes of the protocol are their 32-bit words.
--
-- Only GetRegions runs on fuel. On a task whose memory ends by `limit` and whose maps nest at most
-- `levels` deep, limit * (levels + 1) + levels is enough: each round moves on in the memory, or one
-- level deeper. On a map without submaps, one round for each region and one more is enough.
--
-- Not modelled: that server_thread reads exc_port from the stack of SetupHandler at a time of its own,
-- what is printed to the standard streams, the AArch64 breakpoints and
-- DIsassembleIter (declared and not defined), the accessors that only return a member, the build files
-- and the test programs. The conversion of the byte order in mach_excServer.c is compiled only where
-- its macros are defined, which no file does. Vouchers (USING_VOUCHERS) are left out because the test
-- for their header, `__has_include(<mach / mig_voucher_support.h>)`, has blanks in the path and fails.
pub mod Base
pub mod Mach
pub mod Host
pub mod ThreadState
pub mod Process
pub mod Breakpoint
pub mod BreakpointHandler
pub mod ExceptionHandler
pub mod MachExc
pub mod Disassembler
pub mod Tests
