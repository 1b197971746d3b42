-- ===== src/BreakpointHandler/Install.antt =====
-- What InstallBreakpoint does to the handler.
use master_lib.Base.{
  ℕ, ◌≡◌, ◌⊎◌, inl, inr, Bool, true, false, not, ◌&&◌, [], ◌∷◌, ◌++◌, some, arith, ◌==◌,
  if◌then◌else◌, Bool-cases,
}
use master_lib.Base.Run.{ok}
use master_lib.Host.{Target}
use master_lib.Mach.{Kernel}
use master_lib.Breakpoint
use master_lib.Breakpoint.{Breakpoint}
use master_lib.BreakpointHandler.{Handler, store, call, install_breakpoint}
use master_lib.BreakpointHandler.Live.{IsObject, IsObject-store, Live, Live-append, Live-store}

module _ {W : Type 0} (k : Kernel W) (t : Target) (h : Handler W) (p : ℕ) where
  -- What an installation with activation leaves: the vector has the breakpoint at its end exactly
  -- where `Apply` succeeded.
  abbrev pub installed : Breakpoint → Handler W
  installed b =
      let (done, b', w) = Breakpoint.apply k t b h.world in
      record {
        world = w;
        objects = store h.objects p b';
        breakpoints = if done then h.breakpoints ++ p ∷ [] else h.breakpoints;
      }

  -- Installing a live breakpoint with activation calls its `Apply`, reports what that reports, and
  -- leaves the vector longer by the breakpoint on success and as it was on failure.
  pub install_breakpoint-installed :
      (b : Breakpoint)
      → (p == 0) ≡ false
      → h.objects p ≡ some b
      → install_breakpoint k t p true h ≡ ok (Breakpoint.apply k t b h.world).0 (installed b)
  unfolding install_breakpoint
  install_breakpoint-installed b ne e = elim (Bool-cases (Breakpoint.apply k t b h.world).0) [
    | inl done ↦ rw (ne, e, call, done)
    | inr failed ↦ rw (ne, e, call, failed)
  ]

  -- `InstallBreakpoint` of null or of a live breakpoint returns, and keeps every object one and every
  -- pointer of the handler live; it adds the breakpoint to the vector where it reports success and the pointer is
  -- not null, and else leaves the vector as it was.
  pub install_breakpoint-Live :
      (imm_active : Bool)
      → Live h.objects h.breakpoints
      → (p ≡ 0) ⊎ IsObject h.objects p
      → (done : Bool) × (h' : Handler W) × (install_breakpoint k t p imm_active h ≡ ok done h')
        × Live h'.objects h'.breakpoints
        × (h'.breakpoints
            ≡ (if done && not (p == 0) then h.breakpoints ++ p ∷ [] else h.breakpoints))
        × ((q : ℕ) → IsObject h.objects q → IsObject h'.objects q)
  install_breakpoint-Live imm_active live (inl null) =
      (true, h, unfold install_breakpoint in rw null, live, rw null, λ q o. o)
  install_breakpoint-Live false live (inr (b, e)) = elim (Bool-cases (p == 0)) [
    | inl null ↦ (true, h, unfold install_breakpoint in rw null, live, rw null, λ q o. o)
    | inr ne ↦ (
      true,
      record h { breakpoints = h.breakpoints ++ p ∷ [] },
      unfold install_breakpoint in rw ne,
      Live-append h.objects h.breakpoints (p ∷ []) live ((b, e), tt),
      rw ne,
      λ q o. o,
    )
  ]
  install_breakpoint-Live true live (inr (b, e)) = elim (Bool-cases (p == 0)) [
    | inl null ↦ (true, h, unfold install_breakpoint in rw null, live, rw null, λ q o. o)
    | inr ne ↦
        let (done, b', w) = Breakpoint.apply k t b h.world in
        let longer = Live-append h.objects h.breakpoints (p ∷ []) live ((b, e), tt) in
        (
          done,
          installed b,
          install_breakpoint-installed b ne e,
          elim (Bool-cases (Breakpoint.apply k t b h.world).0) [
            | inl good ↦ rw good (Live-store h.objects (h.breakpoints ++ p ∷ []) p b' longer)
            | inr bad ↦ rw bad (Live-store h.objects h.breakpoints p b' live)
          ],
          ground (arith, ne),
          λ q o. IsObject-store h.objects q p b' o,
        )
  ]
