-- ===== src/BreakpointHandler/Lookup.antt =====
-- What BreakpointAtAddress and Breakpoints answer.
use master_lib.Base.{
  ℕ, ◌≡◌, ◌≢◌, refl, sym, ap, ◌∙◌, ◌⊎◌, inl, inr, Bool, false, ◌&&◌, List, [], ◌∷◌, ◌++◌, Option,
  none, some, arith, ◌==◌, has, ==_iff, if◌then◌else◌, Bool-cases,
}
use master_lib.Base.Run.{ok}
use master_lib.Breakpoint.{Breakpoint}
use master_lib.BreakpointHandler.{
  Handler, deref, find_loop, breakpoint_at_address, list_loop, listed, breakpoints, wants_enabled,
  wants_disabled,
}
use master_lib.BreakpointHandler.Live.{Live}

-- `p` is the first of the pointers whose breakpoint has the address, or null where none has.
abbrev pub FirstAt : (ℕ → Option Breakpoint) → ℕ → List ℕ → ℕ → Type 0
FirstAt objects address [] p = p ≡ 0
FirstAt objects address (q ∷ qs) p =
    (b : Breakpoint) × (objects q ≡ some b)
    × (((b.address ≡ address) × (p ≡ q)) ⊎ ((b.address ≢ address) × FirstAt objects address qs p))

pub FirstAt-unique :
    (objects : ℕ → Option Breakpoint) (address : ℕ) (ps : List ℕ) (p q : ℕ)
    → FirstAt objects address ps p
    → FirstAt objects address ps q
    → p ≡ q
FirstAt-unique objects address [] p q h g = h ∙ sym g
FirstAt-unique objects address (r ∷ rs) p q (b, e, h) (c, f, g) =
    let same : b ≡ c = cc in
    elim h [
      | inl (hit, here) ↦ elim g [
        | inl (hit', here') ↦ here ∙ sym here'
        | inr (miss, later) ↦ absurd (miss (ap (λ (d : Breakpoint). d.address) (sym same) ∙ hit))
      ]
      | inr (miss, later) ↦ elim g [
        | inl (hit, here') ↦ absurd (miss (ap (λ (d : Breakpoint). d.address) same ∙ hit))
        | inr (miss', later') ↦ FirstAt-unique objects address rs p q later later'
      ]
    ]

-- Whether the flags ask for the object.
abbrev pub asked : ℕ → Option Breakpoint → Bool
asked flags none = false
asked flags (some b) = if b.active then wants_enabled flags else wants_disabled flags

-- The elements that pass a test.
abbrev pub select {ℓ} : {A : Type ℓ} → (A → Bool) → List A → List A
select f [] = []
select f (x ∷ xs) = if f x then x ∷ select f xs else select f xs

has-select : (f : ℕ → Bool) (q : ℕ) (ps : List ℕ) → has q (select f ps) ≡ (has q ps && f q)
has-select f q [] = refl
has-select f q (p ∷ ps) = elim (Bool-cases (p == q)) [
  | inl hit ↦ rw ((==_iff p q).0 hit) (ground (arith, has-select f q ps))
  | inr miss ↦ ground (arith, has-select f q ps)
]

listed-append :
    (flags p : ℕ) (b : Breakpoint) (qs : List ℕ)
    → listed flags p b ++ qs ≡ (if asked flags (some b) then p ∷ qs else qs)
listed-append flags p b qs = ground arith

module _ {W : Type 0} where
  find_loop-FirstAt :
      (address : ℕ) (ps : List ℕ) (h : Handler W)
      → Live h.objects ps
      → (p : ℕ) × (find_loop address ps h ≡ ok p h) × FirstAt h.objects address ps p
  unfolding find_loop
  find_loop-FirstAt address [] h live = (0, refl, refl)
  find_loop-FirstAt address (q ∷ qs) h ((b, e), live) = elim (Bool-cases (b.address == address)) [
    | inl hit ↦ (q, rw (e, deref, hit), (b, e, inl (ground arith, refl)))
    | inr miss ↦
        let (p, run, first) = find_loop-FirstAt address qs h live in
        (p, rw (e, deref, miss) run, (b, e, inr (ground arith, first)))
  ]

  -- On a handler whose pointers are live, `BreakpointAtAddress` answers with the first installed
  -- breakpoint at the address, or with null where there is none, and changes nothing.
  pub breakpoint_at_address-FirstAt :
      (address : ℕ) (h : Handler W)
      → Live h.objects h.breakpoints
      → (p : ℕ) × (breakpoint_at_address address h ≡ ok p h)
        × FirstAt h.objects address h.breakpoints p
  unfolding breakpoint_at_address
  breakpoint_at_address-FirstAt address h live = find_loop-FirstAt address h.breakpoints h live

  list_loop-select :
      (flags : ℕ) (ps : List ℕ) (h : Handler W)
      → Live h.objects ps
      → list_loop flags ps h ≡ ok (select (λ p. asked flags (h.objects p)) ps) h
  unfolding list_loop
  list_loop-select flags [] h live = refl
  list_loop-select flags (p ∷ ps) h ((b, e), live) =
      rw (e, deref, list_loop-select flags ps h live)
        (ap (λ qs. ok qs h) (listed-append flags p b (select (λ q. asked flags (h.objects q)) ps)))

  -- On a handler whose pointers are live, `Breakpoints` returns the installed breakpoints that the
  -- flags ask for, enabled ones for BKPT_ENABLED and others for BKPT_DISABLED, in their order and each
  -- as often as it is installed, and changes nothing.
  pub breakpoints-select :
      (flags : ℕ) (h : Handler W)
      → Live h.objects h.breakpoints
      → breakpoints flags h ≡ ok (select (λ p. asked flags (h.objects p)) h.breakpoints) h
  unfolding breakpoints
  breakpoints-select flags h live = list_loop-select flags h.breakpoints h live

  -- On a handler whose pointers are live, `Breakpoints` returns a list that has exactly the installed
  -- breakpoints that the flags ask for, enabled ones for BKPT_ENABLED and others for BKPT_DISABLED,
  -- and changes nothing.
  breakpoints-has :
      (flags : ℕ) (h : Handler W)
      → Live h.objects h.breakpoints
      → (qs : List ℕ) × (breakpoints flags h ≡ ok qs h)
        × ((q : ℕ) → has q qs ≡ (has q h.breakpoints && asked flags (h.objects q)))
  breakpoints-has flags h live = (
    select (λ p. asked flags (h.objects p)) h.breakpoints,
    breakpoints-select flags h live,
    λ q. has-select (λ p. asked flags (h.objects p)) q h.breakpoints,
  )
