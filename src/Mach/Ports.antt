-- ===== src/Mach/Ports.antt =====
-- The calls of the system on ports and threads that src/exception_handler.cc makes, as an interface
-- like `Kernel`.
use master_lib.Base.{ℕ}

-- Documented values of <mach/port.h>, <mach/message.h> and <mach/exception_types.h>.
abbrev pub port_right_receive : ℕ
port_right_receive = 1

abbrev pub make_send : ℕ
make_send = 20

abbrev pub exc_mask_breakpoint : ℕ
exc_mask_breakpoint = 64

-- EXCEPTION_DEFAULT | MACH_EXCEPTION_CODES
abbrev pub default_with_codes : ℕ
default_with_codes = 0x80000001

pub record Ports (W : Type 0) : Type 0 where
  -- EXC_MASK_ALL, which differs between the systems
  pub exc_mask_all : ℕ
  -- the status, and what the variable of the name holds after the call
  pub mach_port_allocate : (task right : ℕ) → W → ℕ × ℕ × W
  pub mach_port_insert_right : (task name port right : ℕ) → W → ℕ × W
  -- the status, and what the variable of the flavor holds after the call
  pub task_get_exception_ports : (task mask : ℕ) → W → ℕ × ℕ × W
  -- an error number: 0 where the thread has been started
  pub pthread_create : W → ℕ × W
  pub pthread_detach : W → W
  pub task_set_exception_ports : (task mask port behavior flavor : ℕ) → W → ℕ × W
