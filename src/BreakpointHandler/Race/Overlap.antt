-- ===== src/BreakpointHandler/Race/Overlap.antt =====
-- src/breakpoint_handler.cc: what BreakpointAtAddress answers while InstallBreakpoint runs.
use master_lib.Base.{
  ℕ, zero, suc, sym, Bool, true, false, [], ◌+◌, ◌<◌, ◌≤◌, ◌≡◌, refl, ◌∙◌, ◌⊎◌, inl, inr, List, ◌∷◌,
  ap, length, length-append, get_elem?, Option, none, some, ◌==◌, arith, Bool-cases,
}
use mathlib.Core.List.{append-nil}
use mathlib.Core.Path.{subst}
use master_lib.Base.Run.{ok, fault}
use master_lib.Breakpoint.{Breakpoint}
use master_lib.BreakpointHandler.{Handler, breakpoint_at_address}
use master_lib.BreakpointHandler.Race.{
  Vector, push_back, pushed, visit, visit_element, Walk, walking, answered, invalid, Threads, look,
  Reach, here, next, pushes, looks, begun,
}
use master_lib.BreakpointHandler.Race.Sound.{IsSound, WalkIsSound, Turn-IsSound}

abbrev pub is_over : Walk → Bool
is_over (walking storage index last) = false
is_over _ = true

module _ {W : Type 0} (address : ℕ) (h : Handler W) where
  -- A lookup that runs alone gives that answer; there was no valid one only where it has none alone
  -- or the vector has new storage.
  abbrev pub AnswersAlone : (storage : ℕ) → Vector → Walk → Type 0
  AnswersAlone storage v (walking st index last) = Unit {0}
  AnswersAlone storage v (answered p) = breakpoint_at_address address h ≡ ok p h
  AnswersAlone storage v invalid = (breakpoint_at_address address h ≡ fault) ⊎ (storage < v.storage)

  -- That many rounds of the server's loop.
  pub rounds : ℕ → Vector → Walk → Walk
  rounds zero v w = w
  rounds (suc n) v w = rounds n v (look h.objects address v w)

  -- The two threads when the server begins: the vector has the handler's breakpoints.
  abbrev pub looking_up : (capacity storage : ℕ) → Threads
  looking_up capacity storage =
      begun (record { elements = h.breakpoints; capacity = capacity; storage = storage })

  Reach-IsSound :
      (grow : ℕ → ℕ) (capacity storage : ℕ) {s : Threads}
      → Reach h.objects address grow (looking_up capacity storage) s
      → IsSound address h storage s
  Reach-IsSound grow capacity storage here = record {
    extra = [];
    elements = sym (append-nil h.breakpoints);
    pending = tt;
    later = omega arith;
    walk = (refl, refl, [], h.breakpoints, refl, refl, refl);
  }
  Reach-IsSound grow capacity storage (next r step) =
      Turn-IsSound address h storage grow step (Reach-IsSound grow capacity storage r)

  sound-AnswersAlone :
      (storage : ℕ) (s : Threads)
      → IsSound address h storage s
      → AnswersAlone storage s.vector s.server
  unfolding breakpoint_at_address
  sound-AnswersAlone storage s sound = alone s.server sound.walk
    where
      alone :
          (w : Walk) → WalkIsSound address h storage s.vector w → AnswersAlone storage s.vector w
      alone (walking st index last) e = tt
      alone (answered p) e = e
      alone invalid e = e

  rounds-over : (n : ℕ) (v : Vector) (w : Walk) → is_over w ≡ true → is_over (rounds n v w) ≡ true
  unfolding rounds look
  rounds-over zero v w over = over
  rounds-over (suc n) v (walking st index last) over = ground (arith, over)
  rounds-over (suc n) v (answered p) over = rounds-over n v (answered p) over
  rounds-over (suc n) v invalid over = rounds-over n v invalid over

  abbrev GoesOn : (storage index last : ℕ) → Walk → Type 0
  GoesOn st index last w = (is_over w ≡ true) ⊎ (w ≡ walking st (index + 1) last)

  visit-GoesOn :
      (p st index last : ℕ) (o : Option Breakpoint)
      → GoesOn st index last (visit h.objects address p st index last o)
  unfolding visit
  visit-GoesOn p st index last none = inl refl
  visit-GoesOn p st index last (some b) = elim (Bool-cases (b.address == address)) [
    | inl hit ↦ rw hit (inl refl)
    | inr miss ↦ rw miss (inr refl)
  ]

  visit_element-GoesOn :
      (st index last : ℕ) (o : Option ℕ)
      → GoesOn st index last (visit_element h.objects address st index last o)
  unfolding visit_element
  visit_element-GoesOn st index last none = inl refl
  visit_element-GoesOn st index last (some p) = visit-GoesOn p st index last (h.objects p)

  -- A round ends the loop or takes the server one element on.
  look-GoesOn :
      (v : Vector) (st index last : ℕ)
      → (index == last) ≡ false
      → GoesOn st index last (look h.objects address v (walking st index last))
  unfolding look
  look-GoesOn v st index last far = elim (Bool-cases (st == v.storage)) [
    | inl same ↦ rw (far, same) (visit_element-GoesOn st index last (get_elem? v.elements index))
    | inr moved ↦ rw (far, moved) (inl refl)
  ]

  rounds-enough :
      (n : ℕ) (v : Vector) (st index last : ℕ)
      → index ≤ last
      → last < index + n
      → is_over (rounds n v (walking st index last)) ≡ true
  unfolding rounds
  rounds-enough zero v st index last a b = absurd (omega arith)
  rounds-enough (suc n) v st index last a b = elim (Bool-cases (index == last)) [
    | inl at_end ↦ rounds-over n v _ (unfold look in rw at_end refl)
    | inr far ↦ elim (look-GoesOn v st index last far) [
      | inl over ↦ rounds-over n v _ over
      | inr on ↦ rw on (rounds-enough n v st (index + 1) last (ground (arith, far)) (omega arith))
    ]
  ]

  sound-rounds :
      (storage : ℕ) (s : Threads)
      → IsSound address h storage s
      → is_over (rounds (suc (length h.breakpoints)) s.vector s.server) ≡ true
  sound-rounds storage s sound = ends s.server sound.walk
    where
      ends :
          (w : Walk)
          → WalkIsSound address h storage s.vector w
          → is_over (rounds (suc (length h.breakpoints)) s.vector w) ≡ true
      ends (walking st index last) (at, end, done, rest, split, place, run) =
          let total = ap length split ∙ length-append done rest in
          rounds-enough (suc (length h.breakpoints)) s.vector st index last
            (omega (arith, total, end, place)) (omega (arith, end))
      ends (answered p) e = rounds-over (suc (length h.breakpoints)) s.vector (answered p) refl
      ends invalid e = rounds-over (suc (length h.breakpoints)) s.vector invalid refl

  -- A vector that has used up its capacity.
  abbrev pub full : (q : ℕ) → List ℕ → (storage : ℕ) → Vector
  full q qs storage = record { elements = q ∷ qs; capacity = length (q ∷ qs); storage = storage }

  moved :
      (grow : ℕ → ℕ) (p q : ℕ) (qs : List ℕ) (storage : ℕ)
      → look h.objects address
          (push_back grow p (full q qs storage))
          (begun (full q qs storage)).server
        ≡ invalid
  unfolding look push_back
  moved grow p q qs storage = ground arith

  -- `BreakpointAtAddress` begins on the server's thread while the client is in no call, and from then on
  -- the client's calls of `InstallBreakpoint`, successful or not, go on in any order with it. If it
  -- answers, it answers as it would have without them; it has no valid answer only if it had none
  -- without them either, or if a push_back has moved the vector. At any point, as many rounds as there
  -- were breakpoints, and one more, end it if the client takes no turn between them. From every full
  -- vector that is not empty, one push_back leads to an invalid read.
  pub Reach-overlap :
      (grow : ℕ → ℕ) (capacity storage : ℕ)
      → ((s : Threads)
          → Reach h.objects address grow (looking_up capacity storage) s
          → AnswersAlone storage s.vector s.server
            × (is_over (rounds (suc (length h.breakpoints)) s.vector s.server) ≡ true))
        × ((p q : ℕ) (qs : List ℕ)
            → Reach h.objects address grow (begun (full q qs storage)) (record {
              vector = push_back grow p (full q qs storage);
              client = pushed;
              server = invalid;
            }))
  Reach-overlap grow capacity storage = (
    λ s r.
        let sound = Reach-IsSound grow capacity storage r in
        (sound-AnswersAlone storage s sound, sound-rounds storage s sound),
    λ p q qs.
        subst
          (λ w.
            Reach h.objects address grow (begun (full q qs storage)) (record {
              vector = push_back grow p (full q qs storage);
              client = pushed;
              server = w;
            }))
          (moved grow p q qs storage) (next (next here (pushes p _ refl)) (looks _)),
  )
