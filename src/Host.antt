-- ===== src/Host.antt =====
-- src/host.h, src/x64/host_x64.*, src/armv7/host_armv7.*, src/aarch64/host_aarch64.*: the
-- processor that the library is built for, and the debug registers that it reports.
use master_lib.Base.{ℕ, ◌+◌, ◌/◌, ◌%◌, ◌^◌, ◌≡◌, Option, none, some, arith, ltb, if◌then◌else◌}

-- The macro of the compiler that is defined.
pub data Target : Type 0 where
  i386 x86_64 arm arm64 : Target

-- `UNKNOWN` is `unknown_platform`; a platform is not a target, so the names differ.
pub data Platform : Type 0 where
  x86 x64 armv7 aarch64 unknown_platform : Platform

-- The answers of the processor and of sysctlbyname: the register DBGDIDR, and the two counts (none
-- for an error).
pub record DebugInfo : Type 0 where
  pub dbgdidr : ℕ
  pub breakpoints : Option ℕ
  pub watchpoints : Option ℕ

-- Host::CurrentHost, which each of three files defines under the macro of its processor: the class
-- of the host that it creates. On i386 no file defines it.
abbrev x64_current_host : Target → Option Platform
x64_current_host x86_64 = some x64
x64_current_host _ = none

abbrev armv7_current_host : Target → Option Platform
armv7_current_host arm = some armv7
armv7_current_host _ = none

abbrev aarch64_current_host : Target → Option Platform
aarch64_current_host arm64 = some aarch64
aarch64_current_host _ = none

abbrev current_host : Target → Option Platform
current_host i386 = none
current_host x86_64 = x64_current_host x86_64
current_host arm = armv7_current_host arm
current_host arm64 = aarch64_current_host arm64

-- x86_64Host::HardwareBreakpointCount and HardwareWatchpointCount
abbrev x64_breakpoint_count : ℕ
x64_breakpoint_count = 4

abbrev x64_watchpoint_count : ℕ
x64_watchpoint_count = 4

-- `int count = (DBGDIDR >> shift) & 0xF; return count > 0 ? count++ : 0`: a postfix increment
-- returns the value before it.
armv7_field : ℕ → ℕ → ℕ
armv7_field dbgdidr shift = let count = dbgdidr / 2 ^ shift % 16 in if ltb 0 count then count else 0

abbrev armv7_breakpoint_count : Target → DebugInfo → ℕ
unfolding armv7_field
armv7_breakpoint_count arm d = armv7_field d.dbgdidr 24
armv7_breakpoint_count _ d = 0

abbrev armv7_watchpoint_count : Target → DebugInfo → ℕ
unfolding armv7_field
armv7_watchpoint_count arm d = armv7_field d.dbgdidr 28
armv7_watchpoint_count _ d = 0

or_zero : Option ℕ → ℕ
or_zero none = 0
or_zero (some count) = count

abbrev aarch64_breakpoint_count : DebugInfo → ℕ
unfolding or_zero
aarch64_breakpoint_count d = or_zero d.breakpoints

abbrev aarch64_watchpoint_count : DebugInfo → ℕ
unfolding or_zero
aarch64_watchpoint_count d = or_zero d.watchpoints

-- The virtual calls, on the class of that platform, built for that target; the two platforms
-- without a class have the count 0 here.
pub hardware_breakpoint_count : Target → Platform → DebugInfo → ℕ
hardware_breakpoint_count t x64 d = x64_breakpoint_count
hardware_breakpoint_count t armv7 d = armv7_breakpoint_count t d
hardware_breakpoint_count t aarch64 d = aarch64_breakpoint_count d
hardware_breakpoint_count t _ d = 0

abbrev hardware_watchpoint_count : Target → Platform → DebugInfo → ℕ
hardware_watchpoint_count t x64 d = x64_watchpoint_count
hardware_watchpoint_count t armv7 d = armv7_watchpoint_count t d
hardware_watchpoint_count t aarch64 d = aarch64_watchpoint_count d
hardware_watchpoint_count t _ d = 0

-- On ARM the reported number of breakpoints is the field DBGDIDR[27:24] as it stands, at most 15,
-- and so one less than the number of breakpoints that the processor has, which is the field plus
-- one.
hardware_breakpoint_count-arm :
    (d : DebugInfo) (brps : ℕ)
    → brps ≡ d.dbgdidr / 2 ^ 24 % 16 + 1
    → hardware_breakpoint_count arm armv7 d + 1 ≡ brps
unfolding hardware_breakpoint_count armv7_breakpoint_count armv7_field
hardware_breakpoint_count-arm d brps e = ground arith
