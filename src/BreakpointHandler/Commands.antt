-- ===== src/BreakpointHandler/Commands.antt =====
-- What a client that installs, enables and disables breakpoints makes of the handler, whatever the
-- order of its calls. UninstallBreakpoint is not among them: BreakpointHandler/Uninstall says why.
use master_lib.Base.{
  ℕ, ◌≡◌, refl, ap, ◌∙◌, ◌⊎◌, inl, inr, Bool, not, ◌&&◌, List, [], ◌∷◌, ◌++◌, Option, ◌==◌,
  if◌then◌else◌,
}
use master_lib.Base.Run.{ok, Cmd, pure, ◌>>=◌}
use master_lib.Host.{Target}
use master_lib.Mach.{Kernel}
use master_lib.Breakpoint
use master_lib.Breakpoint.{Breakpoint}
use master_lib.BreakpointHandler.{
  Handler, store, call, install_breakpoint, enable_breakpoint, disable_breakpoint,
}
use master_lib.BreakpointHandler.Live.{IsObject, IsObject-store, Live, Live-store}
use master_lib.BreakpointHandler.Install.{install_breakpoint-Live}

pub data Command : Type 0 where
  install : (pointer : ℕ) → (imm_active : Bool) → Command
  enable : (pointer : ℕ) → Command
  disable : (pointer : ℕ) → Command

-- Whether the call may be made: its pointer leads to an object, or is null for InstallBreakpoint.
abbrev pub IsAllowed : (ℕ → Option Breakpoint) → Command → Type 0
IsAllowed objects (install p imm_active) = (p ≡ 0) ⊎ IsObject objects p
IsAllowed objects (enable p) = IsObject objects p
IsAllowed objects (disable p) = IsObject objects p

abbrev pub AreAllowed : (ℕ → Option Breakpoint) → List Command → Type 0
AreAllowed objects [] = Unit {0}
AreAllowed objects (c ∷ cs) = IsAllowed objects c × AreAllowed objects cs

-- What is installed after a call with this result.
abbrev pub after_command : Command → Bool → List ℕ → List ℕ
after_command (install p imm_active) done installed =
    if done && not (p == 0) then installed ++ p ∷ [] else installed
after_command (enable p) done installed = installed
after_command (disable p) done installed = installed

abbrev pub after_commands : List Command → List Bool → List ℕ → List ℕ
after_commands [] results installed = installed
after_commands (c ∷ cs) [] installed = installed
after_commands (c ∷ cs) (done ∷ results) installed =
    after_commands cs results (after_command c done installed)

module _ {W : Type 0} (k : Kernel W) (t : Target) where
  unfoldable pub perform : Command → Cmd (Handler W) Bool
  perform (install p imm_active) = install_breakpoint k t p imm_active
  perform (enable p) = enable_breakpoint k t p
  perform (disable p) = disable_breakpoint k t p

  unfoldable pub perform_all : List Command → Cmd (Handler W) (List Bool)
  unfolding perform
  perform_all [] = pure []
  perform_all (c ∷ cs) = do done ← perform c; results ← perform_all cs; pure (done ∷ results)

  -- The run returns; every object is still one, every pointer of the vector leads to one, and the
  -- vector is what the specification says.
  pub record Follows (h : Handler W) (installed : List ℕ) (h' : Handler W) : Type 0 where
    pub objects : (p : ℕ) → IsObject h.objects p → IsObject h'.objects p
    pub live : Live h'.objects h'.breakpoints
    pub same : h'.breakpoints ≡ installed

  -- A virtual call on an object.
  call-Follows :
      (method : Breakpoint → W → Bool × Breakpoint × W) (p : ℕ) (h : Handler W)
      → Live h.objects h.breakpoints
      → IsObject h.objects p
      → (done : Bool) × (h' : Handler W) × (call method p h ≡ ok done h')
        × Follows h h.breakpoints h'
  unfolding call
  call-Follows method p h live (b, e) =
      let (done, b', w) = method b h.world in
      (
        done,
        record h { world = w; objects = store h.objects p b' },
        rw (call, e) refl,
        record {
          objects = λ q o. IsObject-store h.objects q p b' o;
          live = Live-store h.objects h.breakpoints p b' live;
          same = refl;
        },
      )

  pub perform-Follows :
      (c : Command) (h : Handler W)
      → Live h.objects h.breakpoints
      → IsAllowed h.objects c
      → (done : Bool) × (h' : Handler W) × (perform c h ≡ ok done h')
        × Follows h (after_command c done h.breakpoints) h'
  unfolding perform enable_breakpoint disable_breakpoint
  perform-Follows (install p imm_active) h live allowed =
      let (done, h', run, live', vector, kept) =
        install_breakpoint-Live k t h p imm_active live allowed in
      (done, h', run, record { objects = kept; live = live'; same = vector })
  perform-Follows (enable p) h live allowed = call-Follows (Breakpoint.apply k t) p h live allowed
  perform-Follows (disable p) h live allowed = call-Follows (Breakpoint.reset k t) p h live allowed

  AreAllowed-kept :
      (objects objects' : ℕ → Option Breakpoint) (cs : List Command)
      → ((p : ℕ) → IsObject objects p → IsObject objects' p)
      → AreAllowed objects cs
      → AreAllowed objects' cs
  AreAllowed-kept objects objects' [] kept h = tt
  AreAllowed-kept objects objects' (install p imm_active ∷ cs) kept (h, rest) = (
    elim h [ inl null ↦ inl null | inr o ↦ inr (kept p o) ],
    AreAllowed-kept objects objects' cs kept rest,
  )
  AreAllowed-kept objects objects' (enable p ∷ cs) kept (h, rest) =
      (kept p h, AreAllowed-kept objects objects' cs kept rest)
  AreAllowed-kept objects objects' (disable p ∷ cs) kept (h, rest) =
      (kept p h, AreAllowed-kept objects objects' cs kept rest)

  -- Any calls of `InstallBreakpoint`, `EnableBreakpoint` and `DisableBreakpoint` on pointers to
  -- objects, and of `InstallBreakpoint` on null, return on a handler whose pointers are live, and leave
  -- them live and every object one. The vector is then the one from before with each pointer, other
  -- than null, for which an `InstallBreakpoint` has reported success, in the order of the calls at its
  -- end.
  pub perform_all-Follows :
      (cs : List Command) (h : Handler W)
      → Live h.objects h.breakpoints
      → AreAllowed h.objects cs
      → (results : List Bool) × (h' : Handler W) × (perform_all cs h ≡ ok results h')
        × Follows h (after_commands cs results h.breakpoints) h'
  unfolding perform_all
  perform_all-Follows [] h live allowed =
      ([], h, refl, record { objects = λ p o. o; live = live; same = refl })
  perform_all-Follows (c ∷ cs) h live (allowed, rest) =
      let (done, h1, run, f) = perform-Follows c h live allowed in
      let (results, h2, run', g) =
        perform_all-Follows cs h1 f.live (AreAllowed-kept h.objects h1.objects cs f.objects rest) in
      (
        done ∷ results,
        h2,
        rw (run, run') refl,
        record {
          objects = λ p o. g.objects p (f.objects p o);
          live = g.live;
          same = g.same ∙ ap (after_commands cs results) f.same;
        },
      )
