-- ===== src/BreakpointHandler/Race/Sound.antt =====
-- What stays true of the two threads while BreakpointAtAddress and InstallBreakpoint overlap.
use master_lib.Base.{
  ℕ, ◌<◌, ◌≤◌, ◌≡◌, refl, sym, ap, ◌∙◌, ◌⊎◌, inl, inr, true, false, List, [], ◌∷◌, ◌++◌, Option,
  none, some, ◌==◌, length, length-append, get_elem?, arith, Bool-cases,
}
use mathlib.Core.Path.{subst}
use master_lib.Base.Run.{ok, fault}
use master_lib.Breakpoint.{Breakpoint}
use master_lib.BreakpointHandler.{Handler, find_loop, deref}
use master_lib.BreakpointHandler.Race.{
  Vector, all_but_last, push_back, Client, idle, pushed, Walk, walking, answered, invalid, Threads,
  visit, visit_element, look, Turn, pushes, keeps, pops, looks,
}

pub all_but_last-append : (ps : List ℕ) (p : ℕ) → all_but_last (ps ++ p ∷ []) ≡ ps
unfolding all_but_last
all_but_last-append [] p = refl
all_but_last-append (q ∷ []) p = refl
all_but_last-append (q ∷ r ∷ ps) p = ap (λ qs. q ∷ qs) (all_but_last-append (r ∷ ps) p)

append_assoc : (ps qs rs : List ℕ) → (ps ++ qs) ++ rs ≡ ps ++ (qs ++ rs)
append_assoc [] qs rs = refl
append_assoc (p ∷ ps) qs rs = ap (λ ts. p ∷ ts) (append_assoc ps qs rs)

get_elem?-append :
    (ps : List ℕ) (p : ℕ) (qs : List ℕ) → get_elem? (ps ++ p ∷ qs) (length ps) ≡ some p
get_elem?-append [] p qs = refl
get_elem?-append (r ∷ ps) p qs = get_elem?-append ps p qs

push_back-later : (grow : ℕ → ℕ) (p : ℕ) (v : Vector) → v.storage ≤ (push_back grow p v).storage
unfolding push_back
push_back-later grow p v = ground arith

pub push_back-elements :
    (grow : ℕ → ℕ) (p : ℕ) (v : Vector) → (push_back grow p v).elements ≡ v.elements ++ p ∷ []
unfolding push_back
push_back-elements grow p v = ground arith

-- What the client has added to the vector: its last call has not ended where the client has pushed.
abbrev pub Pending : Client → List ℕ → Type 0
Pending idle extra = Unit {0}
Pending pushed extra = (old : List ℕ) × (p : ℕ) × (extra ≡ old ++ p ∷ [])

module _ {W : Type 0} (address : ℕ) (h : Handler W) (storage : ℕ) where
  -- Where the server is, by the vector of the beginning, h.breakpoints.
  abbrev pub WalkIsSound : Vector → Walk → Type 0
  WalkIsSound v (walking st index last) =
      (st ≡ storage)
      × (last ≡ length h.breakpoints)
      × (done : List ℕ) × (rest : List ℕ) × (h.breakpoints ≡ done ++ rest)
      × (index ≡ length done)
      × (find_loop address h.breakpoints h ≡ find_loop address rest h)
  WalkIsSound v (answered p) = find_loop address h.breakpoints h ≡ ok p h
  WalkIsSound v invalid = (find_loop address h.breakpoints h ≡ fault) ⊎ (storage < v.storage)

  pub record IsSound (s : Threads) : Type 0 where
    pub extra : List ℕ
    pub elements : s.vector.elements ≡ h.breakpoints ++ extra
    pub pending : Pending s.client extra
    pub later : storage ≤ s.vector.storage
    pub walk : WalkIsSound s.vector s.server

  later-WalkIsSound :
      (v u : Vector) (w : Walk) → v.storage ≤ u.storage → WalkIsSound v w → WalkIsSound u w
  later-WalkIsSound v u (walking st index last) le sound = sound
  later-WalkIsSound v u (answered p) le sound = sound
  later-WalkIsSound v u invalid le (inl e) = inl e
  later-WalkIsSound v u invalid le (inr lt) = inr (omega arith)

  visit-WalkIsSound :
      (v : Vector) (done : List ℕ) (p : ℕ) (rest : List ℕ) (o : Option Breakpoint)
      → h.objects p ≡ o
      → h.breakpoints ≡ done ++ p ∷ rest
      → find_loop address h.breakpoints h ≡ find_loop address (p ∷ rest) h
      → WalkIsSound v (visit h.objects address p storage (length done) (length h.breakpoints) o)
  unfolding visit find_loop deref
  visit-WalkIsSound v done p rest none e split run = inl (run ∙ rw (deref, e) refl)
  visit-WalkIsSound v done p rest (some b) e split run = elim (Bool-cases (b.address == address)) [
    | inl hit ↦ rw hit (run ∙ rw (deref, e, hit) refl)
    | inr miss ↦ rw miss (
      refl,
      refl,
      done ++ p ∷ [],
      rest,
      split ∙ sym (append_assoc done (p ∷ []) rest),
      sym (length-append done (p ∷ [])),
      run ∙ rw (deref, e, miss) refl,
    )
  ]

  -- The server at the element `rest` begins with.
  step-WalkIsSound :
      (v : Vector) (extra done rest : List ℕ)
      → v.elements ≡ h.breakpoints ++ extra
      → storage ≤ v.storage
      → h.breakpoints ≡ done ++ rest
      → find_loop address h.breakpoints h ≡ find_loop address rest h
      → WalkIsSound v
          (look h.objects address v (walking storage (length done) (length h.breakpoints)))
  unfolding look visit_element
  step-WalkIsSound v extra done [] e le split run =
      let total = ap length split ∙ length-append done [] in
      let same : (length done == length h.breakpoints) ≡ true = ground (arith, total) in
      rw same (run ∙ unfold find_loop in refl)
  step-WalkIsSound v extra done (p ∷ rest) e le split run =
      let total = ap length split ∙ length-append done (p ∷ rest) in
      let inside : (length done == length h.breakpoints) ≡ false = ground (arith, total) in
      let here : get_elem? v.elements (length done) ≡ some p =
        ap (λ ps. get_elem? ps (length done))
          (e ∙ ap (λ ps. ps ++ extra) split ∙ append_assoc done (p ∷ rest) extra)
        ∙ get_elem?-append done p (rest ++ extra) in
      elim (Bool-cases (storage == v.storage)) [
        | inl same ↦
            rw (inside, same, here) (visit-WalkIsSound v done p rest (h.objects p) refl split run)
        | inr moved ↦ rw (inside, moved) (inr (ground (arith, le, moved)))
      ]

  look-WalkIsSound :
      (v : Vector) (extra : List ℕ) (w : Walk)
      → v.elements ≡ h.breakpoints ++ extra
      → storage ≤ v.storage
      → WalkIsSound v w
      → WalkIsSound v (look h.objects address v w)
  look-WalkIsSound v extra (walking st index last) e le (at, end, done, rest, split, place, run) =
      rw (at, end, place) (step-WalkIsSound v extra done rest e le split run)
  look-WalkIsSound v extra (answered p) e le sound = unfold look in sound
  look-WalkIsSound v extra invalid e le sound = unfold look in sound

  pub Turn-IsSound :
      (grow : ℕ → ℕ) {s u : Threads} → Turn h.objects address grow s u → IsSound s → IsSound u
  Turn-IsSound grow (pushes p s e) sound = record {
    extra = sound.extra ++ p ∷ [];
    elements =
        push_back-elements grow p s.vector
        ∙ ap (λ ps. ps ++ p ∷ []) sound.elements
        ∙ append_assoc h.breakpoints sound.extra (p ∷ []);
    pending = (sound.extra, p, refl);
    later = omega (arith, sound.later, push_back-later grow p s.vector);
    walk =
        later-WalkIsSound s.vector (push_back grow p s.vector) s.server
          (push_back-later grow p s.vector) sound.walk;
  }
  Turn-IsSound grow (keeps s e) sound = record {
    extra = sound.extra;
    elements = sound.elements;
    pending = tt;
    later = sound.later;
    walk = sound.walk;
  }
  Turn-IsSound grow (pops s e) sound =
      let (old, p, last) = subst (λ c. Pending c sound.extra) e sound.pending in
      record {
        extra = old;
        elements =
            ap all_but_last (
              sound.elements
              ∙ ap (λ ps. h.breakpoints ++ ps) last
              ∙ sym (append_assoc h.breakpoints old (p ∷ [])))
            ∙ all_but_last-append (h.breakpoints ++ old) p;
        pending = tt;
        later = sound.later;
        walk =
            later-WalkIsSound s.vector
              (record s.vector { elements = all_but_last s.vector.elements }) s.server (omega arith)
              sound.walk;
      }
  Turn-IsSound grow (looks s) sound = record {
    extra = sound.extra;
    elements = sound.elements;
    pending = sound.pending;
    later = sound.later;
    walk = look-WalkIsSound s.vector sound.extra s.server sound.elements sound.later sound.walk;
  }
