-- ===== src/BreakpointHandler/Live.antt =====
-- When the pointers of the handler may be used.
use master_lib.Base.{ℕ, ◌≡◌, List, [], ◌∷◌, ◌++◌, Option, some, ◌==◌, Bool-cases, inl, inr}
use master_lib.Breakpoint.{Breakpoint}
use master_lib.BreakpointHandler.{store}

-- The pointer leads to an object.
abbrev pub IsObject : (ℕ → Option Breakpoint) → ℕ → Type 0
IsObject objects p = (b : Breakpoint) × (objects p ≡ some b)

-- Every pointer of the list leads to an object.
abbrev pub Live : (ℕ → Option Breakpoint) → List ℕ → Type 0
Live objects [] = Unit {0}
Live objects (p ∷ ps) = IsObject objects p × Live objects ps

pub Live-append :
    (objects : ℕ → Option Breakpoint) (ps qs : List ℕ)
    → Live objects ps
    → Live objects qs
    → Live objects (ps ++ qs)
Live-append objects [] qs h g = g
Live-append objects (p ∷ ps) qs h g = (h.0, Live-append objects ps qs h.1 g)

-- An object may change, and stays an object.
pub IsObject-store :
    (objects : ℕ → Option Breakpoint) (p q : ℕ) (b : Breakpoint)
    → IsObject objects p
    → IsObject (store objects q b) p
IsObject-store objects p q b (c, found) = elim (Bool-cases (p == q)) [
  | inl hit ↦ (b, rw hit)
  | inr miss ↦ (c, rw miss found)
]

pub Live-store :
    (objects : ℕ → Option Breakpoint) (ps : List ℕ) (q : ℕ) (b : Breakpoint)
    → Live objects ps
    → Live (store objects q b) ps
Live-store objects [] q b h = tt
Live-store objects (p ∷ ps) q b h =
    (IsObject-store objects p q b h.0, Live-store objects ps q b h.1)
