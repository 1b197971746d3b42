-- ===== src/Process/Listing.antt =====
-- src/process.cc: NameForPID, PIDForName, ProcessExists, the functions GetProcess and Self, IsAlive,
-- Kill, Pause and Resume.
use master_lib.Base.{
  ℕ, zero, suc, ◌*◌, Bool, true, false, ◌&&◌, List, [], ◌∷◌, Option, none, some, ◌==◌,
  if◌then◌else◌,
}
use master_lib.Base.Run.{Run, ok, fault, Cmd}
use master_lib.Mach.{Kernel, kern_success, to_bool, sigkill}
use master_lib.Process.{Process}

-- The C string in a buffer: what stands before the first NUL.
unfoldable pub c_string : List ℕ → List ℕ
c_string [] = []
c_string (c ∷ cs) = if c == 0 then [] else c ∷ c_string cs

-- Whether two strings have the same characters.
unfoldable pub same_string : List ℕ → List ℕ → Bool
same_string [] [] = true
same_string (a ∷ s) (b ∷ t) = a == b && same_string s t
same_string _ _ = false

-- strcmp(a, b) == 0
unfoldable pub str_equal : List ℕ → List ℕ → Bool
unfolding c_string same_string
str_equal a b = same_string (c_string a) (c_string b)

-- The loops over the first `n` entries of the buffer.
unfoldable pub exists_loop : ℕ → List ℕ → ℕ → Bool
exists_loop zero pids pid = false
exists_loop (suc n) [] pid = false
exists_loop (suc n) (p ∷ pids) pid = if p == pid then true else exists_loop n pids pid

module _ {W : Type 0} (k : Kernel W) where
  -- the count, and the buffer that the second call has filled
  unfoldable pub list_pids : W → ℕ × List ℕ × W
  list_pids w =
      let (n, w1) = k.proc_listpids_size w in
      let (pids, w2) = k.proc_listpids (n * 4) w1 in (n, pids, w2)

  unfoldable pub name_loop : ℕ → List ℕ → ℕ → W → Option (List ℕ) × W
  name_loop zero pids pid w = (none, w)
  name_loop (suc n) [] pid w = (none, w)
  name_loop (suc n) (p ∷ pids) pid w =
      if p == pid
      then (let (name, w') = k.proc_name p w in (some name, w'))
      else name_loop n pids pid w

  -- none is the null pointer
  unfoldable pub name_for_pid : ℕ → W → Option (List ℕ) × W
  unfolding list_pids name_loop
  name_for_pid pid w = let (n, pids, w') = list_pids w in name_loop n pids pid w'

  unfoldable pub pid_loop : ℕ → List ℕ → List ℕ → W → Option ℕ × W
  pid_loop zero pids name w = (none, w)
  pid_loop (suc n) [] name w = (none, w)
  pid_loop (suc n) (p ∷ pids) name w =
      let (pid_name, w') = k.proc_name p w in
      let rest = pid_loop n pids name w' in if str_equal pid_name name then (some p, w') else rest

  -- none is the -1 of the source
  unfoldable pub pid_for_name : List ℕ → W → Option ℕ × W
  unfolding list_pids pid_loop
  pid_for_name name w = let (n, pids, w') = list_pids w in pid_loop n pids name w'

  unfoldable pub process_exists : ℕ → W → Bool × W
  unfolding list_pids exists_loop
  process_exists pid w = let (n, pids, w') = list_pids w in (exists_loop n pids pid, w')

  -- make_shared<Process>(pid, name, task), with the task that task_for_pid leaves
  unfoldable pub attach : ℕ → List ℕ → W → Option Process × W
  attach pid name w =
      let (task, w') = k.task_for_pid pid w in
      (some (record { pid = pid; name = c_string name; task = task; paused = false }), w')

  unfoldable pub attach_found : List ℕ → Option ℕ × W → Option Process × W
  unfolding attach
  attach_found name (none, w) = (none, w)
  attach_found name (some pid, w) = if pid == 0 then (none, w) else attach pid name w

  -- GetProcess(const char *): none is a null pointer, as argument and as result
  unfoldable pub get_process_named : Option (List ℕ) → W → Option Process × W
  unfolding attach_found pid_for_name
  get_process_named none w = (none, w)
  get_process_named (some name) w = attach_found name (pid_for_name name w)

  -- std::string from a null pointer is undefined behaviour
  unfoldable pub attach_named : ℕ → Option (List ℕ) × W → Run W (Option Process)
  unfolding attach
  attach_named pid (none, w) = fault
  attach_named pid (some name, w) = let (p, w') = attach pid name w in ok p w'

  -- GetProcess(int)
  unfoldable pub get_process : ℕ → Cmd W (Option Process)
  unfolding process_exists name_for_pid attach_named
  get_process pid w =
      let (exists, w') = process_exists pid w in
      if exists then attach_named pid (name_for_pid pid w') else ok none w'

  unfoldable pub is_alive : Process → W → Bool × W
  unfolding process_exists
  is_alive p w = process_exists p.pid w

  -- `return kill(pid_, SIGKILL)`, an int as a bool
  unfoldable pub kill : Process → W → Bool × W
  kill p w = let (result, w') = k.kill p.pid sigkill w in (to_bool result, w')

  unfoldable pub pause : Process → W → Bool × Process × W
  pause p w =
      let (status, w') = k.task_suspend p.task w in
      (status == kern_success, record p { paused = true }, w')

  unfoldable pub resume : Process → W → Bool × Process × W
  resume p w =
      let (status, w') = k.task_resume p.task w in
      (status == kern_success, record p { paused = false }, w')

  -- Self(): none of its calls can fail
  unfoldable pub self : W → Process × W
  self w =
      let (name, w1) = k.progname w in
      let (pid, w2) = k.getpid w1 in
      let (task, w3) = k.mach_task_self w2 in
      (record { pid = pid; name = c_string name; task = task; paused = false }, w3)

  -- InjectLibrary is not written yet: it does nothing and answers false.
  unfoldable pub inject_library : Process → List ℕ → W → Bool × W
  inject_library p lib w = (false, w)
