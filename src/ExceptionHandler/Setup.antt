-- ===== src/ExceptionHandler/Setup.antt =====
-- src/exception_handler.cc: ExceptionHandler::SetupHandler, which writes its errors to stderr.
use master_lib.Base.{
  ℕ, ◌≡◌, refl, inl, inr, Bool, true, false, Option, none, some, ◌==◌, if◌then◌else◌, arith,
  Bool-cases,
}
use master_lib.Mach.{Kernel, kern_success}
use master_lib.Mach.Ports.{
  Ports, port_right_receive, make_send, exc_mask_breakpoint, default_with_codes,
}

module _ {W : Type 0} (k : Kernel W) (ports : Ports W) where
  -- The answer, the port whose variable the started thread was given, and the system.
  -- From pthread_create on, in the states that the calls before it leave.
  unfoldable pub start_server : (task exc_port flavor : ℕ) → W → Bool × Option ℕ × W
  start_server task exc_port flavor w =
      let (err, w1) = ports.pthread_create w in
      let w2 = ports.pthread_detach w1 in
      let (set, w3) =
        ports.task_set_exception_ports task exc_mask_breakpoint exc_port default_with_codes flavor
          w2 in
      if err == 0 then (set == kern_success, some exc_port, w3) else (false, none, w1)

  unfoldable pub setup_handler : W → Bool × Option ℕ × W
  unfolding start_server
  setup_handler w =
      let (task, w1) = k.mach_task_self w in
      let (allocated, exc_port, w2) = ports.mach_port_allocate task port_right_receive w1 in
      let (inserted, w3) = ports.mach_port_insert_right task exc_port exc_port make_send w2 in
      let (got, flavor, w4) = ports.task_get_exception_ports task ports.exc_mask_all w3 in
      if allocated == kern_success
      then (if inserted == kern_success
          then (if got == kern_success
              then start_server task exc_port flavor w4
              else (false, none, w4))
          else (false, none, w3))
      else (false, none, w2)

-- Documented behaviour of these calls: `registered` is the port that a task's breakpoint exceptions
-- are sent to, which only task_set_exception_ports changes.
pub record PortLaws {W : Type 0} (k : Kernel W) (ports : Ports W) (registered : W → ℕ → ℕ)
    : Type 0 where
  pub self : (w : W) (u : ℕ) → registered (k.mach_task_self w).1 u ≡ registered w u
  pub allocate :
      (task right : ℕ) (w : W) (u : ℕ)
      → registered (ports.mach_port_allocate task right w).2 u ≡ registered w u
  pub insert :
      (task name port right : ℕ) (w : W) (u : ℕ)
      → registered (ports.mach_port_insert_right task name port right w).1 u ≡ registered w u
  pub get_ports :
      (task mask : ℕ) (w : W) (u : ℕ)
      → registered (ports.task_get_exception_ports task mask w).2 u ≡ registered w u
  pub create : (w : W) (u : ℕ) → registered (ports.pthread_create w).1 u ≡ registered w u
  pub detach : (w : W) (u : ℕ) → registered (ports.pthread_detach w) u ≡ registered w u
  pub set_ports :
      (task port behavior flavor : ℕ) (w : W) (u : ℕ)
      → registered
          (ports.task_set_exception_ports task exc_mask_breakpoint port behavior flavor w).1
          u
        ≡ (if (ports.task_set_exception_ports task exc_mask_breakpoint port behavior flavor w).0
              == kern_success
            then (if u == task then port else registered w u)
            else registered w u)

module _ {W : Type 0} (k : Kernel W) (ports : Ports W) (registered : W → ℕ → ℕ)
    (laws : PortLaws k ports registered) where
  start_server-registered :
      (task exc_port flavor : ℕ) (w : W) (u : ℕ)
      → let (done, started, w') = start_server k ports task exc_port flavor w in
        (registered w' u
          ≡ (if done then (if u == task then exc_port else registered w u) else registered w u))
        × (done ≡ true → started ≡ some exc_port)
  unfolding start_server
  start_server-registered task exc_port flavor w u =
      elim (Bool-cases ((ports.pthread_create w).0 == 0)) [
        | inl e ↦ rw (e, laws.set_ports, laws.detach, laws.create) (refl, λ _. refl)
        | inr e ↦ rw (e, laws.create) (refl, λ h. absurd (ground (arith, h)))
      ]

  -- `SetupHandler` registers the port that it has allocated for the breakpoint exceptions of its own
  -- task exactly where it returns true, and has then started the server's thread on that port; it
  -- registers nothing else, and nothing where it returns false.
  pub setup_handler-registered :
      (w : W) (u : ℕ)
      → let (task, w1) = k.mach_task_self w in
        let exc_port = (ports.mach_port_allocate task port_right_receive w1).1 in
        let (done, started, w') = setup_handler k ports w in
        (registered w' u
          ≡ (if done then (if u == task then exc_port else registered w u) else registered w u))
        × (done ≡ true → started ≡ some exc_port)
  unfolding setup_handler
  setup_handler-registered w u =
      let (task, w1) = k.mach_task_self w in
      let (allocated, exc_port, w2) = ports.mach_port_allocate task port_right_receive w1 in
      let (inserted, w3) = ports.mach_port_insert_right task exc_port exc_port make_send w2 in
      let (got, flavor, w4) = ports.task_get_exception_ports task ports.exc_mask_all w3 in
      elim (Bool-cases (allocated == kern_success)) [
        | inr e ↦ rw (e, laws.allocate, laws.self) (refl, λ h. absurd (ground (arith, h)))
        | inl e ↦ elim (Bool-cases (inserted == kern_success)) [
          | inr f ↦
              rw (e, f, laws.insert, laws.allocate, laws.self)
                (refl, λ h. absurd (ground (arith, h)))
          | inl f ↦ elim (Bool-cases (got == kern_success)) [
            | inr g ↦
                rw (e, f, g, laws.get_ports, laws.insert, laws.allocate, laws.self)
                  (refl, λ h. absurd (ground (arith, h)))
            | inl g ↦
                rw
                  (
                    e,
                    f,
                    g,
                    ← laws.self w u,
                    ← laws.allocate task port_right_receive w1 u,
                    ← laws.insert task exc_port exc_port make_send w2 u,
                    ← laws.get_ports task ports.exc_mask_all w3 u,
                  )
                  (start_server-registered task exc_port flavor w4 u)
          ]
        ]
      ]
