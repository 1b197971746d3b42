-- ===== src/Tests/Machine.antt =====
-- A small machine that keeps the documented behaviour of the Mach calls: the memory of every task,
-- and the debug registers and the suspend count of every thread.
use master_lib.Base.{
  ℕ, ◌+◌, ◌-◌, ◌%◌, ◌≡◌, refl, Bool, true, false, List, [], ◌∷◌, some, arith, ltb, leb, ◌||◌, ◌&&◌,
  ◌==◌, if◌then◌else◌,
}
use master_lib.Mach.{
  Kernel, Flavor, x86_debug_state64, RegionReply, kern_success, kern_invalid_address,
}
use master_lib.Mach.Ports.{Ports}
use master_lib.ExceptionHandler.Setup.{PortLaws}
use master_lib.ThreadState.Persistence.{StateLaws, same_flavor}
use master_lib.Mach.Memory.{MemoryLaws, bytes_at, written}
use master_lib.Mach.Steady.{Looks, SuspendLaws}
use master_lib.Process.Protection.{ProtectLaws}
use master_lib.Process.Regions.Defs.{Region}
use master_lib.Process.Regions.Flat.{FlatMap, region_at}
use master_lib.Process.Regions.Termination.{RegionLaws}
use master_lib.Breakpoint.X64Hardware.Arming.{DebugLaws}

pub record Machine : Type 0 where
  pub memory : ℕ → ℕ → ℕ
  pub debug : ℕ → List ℕ
  pub suspends : ℕ → ℕ
  pub structures : Flavor → ℕ → List ℕ
  pub exception_port : ℕ → ℕ
  pub protections : ℕ → ℕ → ℕ

-- Two regions, from 16 to 32 and from 64 to 96.
abbrev pub regions : List Region
regions =
    record { start = 16; size = 16; prot = 5 } ∷ record { start = 64; size = 32; prot = 3 } ∷ []

abbrev region : ℕ → RegionReply
region a =
    if ltb a 32
    then (record {
      status = kern_success;
      address = 16;
      size = 16;
      depth = 0;
      is_submap = false;
      protection = 5;
    })
    else if ltb a 96
    then (record {
      status = kern_success;
      address = 64;
      size = 32;
      depth = 0;
      is_submap = false;
      protection = 3;
    })
    else (record {
      status = kern_invalid_address;
      address = a;
      size = 0;
      depth = 0;
      is_submap = false;
      protection = 0;
    })

abbrev is_debug : Flavor → Bool
is_debug x86_debug_state64 = true
is_debug _ = false

abbrev zeros : List ℕ
zeros = 0 ∷ 0 ∷ 0 ∷ 0 ∷ 0 ∷ 0 ∷ 0 ∷ 0 ∷ []

-- The caller is the thread 3; the task has the threads 3, 5 and 6.
abbrev pub machine : Kernel Machine
machine = record {
  vm_read_overwrite = λ t a n out w. (0, bytes_at (w.memory t) a n, w);
  vm_write = λ t a bs w. (0, record w { memory = written w.memory t a bs });
  vm_protect = λ t a n m p w. (0, w);
  vm_region_recurse = λ t a s d w. (region a, w);
  task_suspend = λ t w. (0, w);
  task_resume = λ t w. (0, w);
  task_threads = λ t w. (0, 3 ∷ 5 ∷ 6 ∷ [], w);
  task_for_pid = λ p w. (p + 100, w);
  pid_for_task = λ t w. (0, t - 100, w);
  mach_task_self = λ w. (107, w);
  mach_thread_self = λ w. (3, w);
  pthread_mach_thread = λ w. (3, w);
  thread_suspend =
      λ t w. record w { suspends = λ u. if u == t then w.suspends u + 1 else w.suspends u };
  thread_resume =
      λ t w. record w { suspends = λ u. if u == t then w.suspends u - 1 else w.suspends u };
  thread_get_state = λ f t w. (some (if is_debug f then w.debug t else zeros), w);
  state_count = λ f. 8;
  thread_set_state = λ f t words w.
      if is_debug f then (record w { debug = λ u. if u == t then words else w.debug u }) else w;
  proc_listpids_size = λ w. (2, w);
  proc_listpids = λ n w. (7 ∷ 9 ∷ [], w);
  proc_name = λ p w. (b'l' ∷ b's' ∷ 0 ∷ [], w);
  kill = λ p s w. (0, w);
  getpid = λ w. (7, w);
  progname = λ w. (b'd' ∷ b'b' ∷ b'g' ∷ 0 ∷ [], w);
  sysctl_p_lp64 = λ p w. (some true, w);
  indeterminate = λ n w. [];
  reads_indeterminate = true;
}

-- The same machine, where every thread has all its structures.
abbrev pub storing : Kernel Machine
storing = record machine {
  thread_get_state = λ f t w. (some (w.structures f t), w);
  thread_set_state = λ f t words w. record w {
    structures = λ g u. if same_flavor f g && t == u then words else w.structures g u;
  };
}

pub storing-StateLaws : StateLaws storing (λ w. w.structures)
storing-StateLaws = record {
  get = λ f t w. refl;
  get_keeps = λ f t w g u. refl;
  set = λ f t words w g u. refl;
}

-- The same machine, where every address has a protection; no call fails.
abbrev pub guarded : Kernel Machine
guarded = record machine {
  vm_protect = λ t a n m p w. (
    0,
    record w {
      protections = λ u x. if u == t && leb a x && ltb x (a + n) then p % 8 else w.protections u x;
    },
  );
}

pub guarded-ProtectLaws : ProtectLaws guarded (λ w. w.protections)
guarded-ProtectLaws = record {
  protected = λ t a n p w x e above below. ground arith;
  refused = λ t a n p w x e. ground arith;
  written = λ t a bs w x. refl;
}

-- Its ports: every call succeeds, and the first new port is 33.
abbrev pub ports : Ports Machine
ports = record {
  exc_mask_all = 0x3ffe;
  mach_port_allocate = λ task right w. (0, 33, w);
  mach_port_insert_right = λ task name port right w. (0, w);
  task_get_exception_ports = λ task mask w. (0, 1, w);
  pthread_create = λ w. (0, w);
  pthread_detach = λ w. w;
  task_set_exception_ports = λ task mask port behavior flavor w.
      (0, record w { exception_port = λ u. if u == task then port else w.exception_port u });
}

pub ports-PortLaws : PortLaws machine ports (λ w. w.exception_port)
ports-PortLaws = record {
  self = λ w u. refl;
  allocate = λ task right w u. refl;
  insert = λ task name port right w u. refl;
  get_ports = λ task mask w u. refl;
  create = λ w u. refl;
  detach = λ w u. refl;
  set_ports = λ task port behavior flavor w u. refl;
}

-- Byte x of every task is x, and may be read and written.
abbrev pub start : Machine
start = record {
  memory = λ t a. a;
  debug = λ t. zeros;
  suspends = λ t. 0;
  structures = λ f t. [];
  exception_port = λ t. 0;
  protections = λ t a. 3;
}

pub machine-MemoryLaws : MemoryLaws machine (λ w. w.memory)
machine-MemoryLaws = record {
  read_ok = λ t a n out w e. refl;
  read_peek = λ t a n out w u x. refl;
  protect_peek = λ t a n m p w u x. refl;
  write_ok = λ t a bs w e u x. refl;
}

machine-set :
    (f : Flavor) (t : ℕ) (words : List ℕ) (w : Machine) (u : ℕ)
    → (machine.thread_set_state f t words w).suspends u ≡ w.suspends u
machine-set f t words w u = ground arith

machine-Looks : (u : ℕ) → Looks machine (λ w. w.suspends u)
machine-Looks u = record {
  vm_read_overwrite = λ t a n out w. refl;
  vm_protect = λ t a n m p w. refl;
  task_threads = λ t w. refl;
  task_for_pid = λ p w. refl;
  pid_for_task = λ t w. refl;
  mach_thread_self = λ w. refl;
  pthread_mach_thread = λ w. refl;
  thread_get_state = λ f t w. refl;
  thread_set_state = λ f t words w. machine-set f t words w u;
  proc_listpids_size = λ w. refl;
  proc_listpids = λ n w. refl;
  proc_name = λ p w. refl;
  sysctl_p_lp64 = λ p w. refl;
}

pub machine-SuspendLaws : SuspendLaws machine (λ w. w.suspends)
machine-SuspendLaws = record {
  steady = λ u. record { looks = machine-Looks u; vm_write = λ t a bs w. refl };
  suspend = λ t w u. refl;
  resume = λ t w u. refl;
}

pub machine-DebugLaws : DebugLaws machine (λ w. w.debug)
machine-DebugLaws = record {
  get_debug = λ t w. refl;
  get_keeps = λ f t w u. refl;
  set_debug = λ t words w u. refl;
  set_thread = λ t words w u. refl;
}

pub machine-FlatMap : FlatMap machine 107 regions
unfolding region_at
machine-FlatMap = record { behind = λ a s d w h. ground arith; found = λ a s d w e h. ground arith }

pub machine-RegionLaws : RegionLaws machine 107 96 1
machine-RegionLaws = record {
  limit_fits = omega arith;
  levels_fit = omega arith;
  errors = λ a s d w. ground arith;
  boundary = λ a d. leb a 16 || (leb 32 a && leb a 64) || leb 96 a;
  boundary_zero = refl;
  starts = λ a s d w h sub. ground arith;
  ends = λ a s d w h leaf. ground arith;
  forward = λ a s d w b h. ground arith;
  inside = λ a s d w h. ground arith;
  nonempty = λ a s d w h flat. ground arith;
  depth_bound = λ a s d w h found. ground arith;
  submap_depth = λ a s d w h submap. ground arith;
}
