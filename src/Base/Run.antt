-- ===== src/Base/Run.antt =====
-- Runs over a state: a result with the new state, or undefined behaviour of the C++ program.
use mathlib.Core.Path.{◌≡◌, refl}
use mathlib.Core.Logic.{◌⊎◌, inl, inr}

pub data Run (S A : Type 0) : Type 0 where
  ok : A → S → Run S A
  -- undefined behaviour, such as a dereferenced null pointer
  fault : Run S A

pub Run-cases : {S A : Type 0} (r : Run S A) → (((a : A) × ((s : S) × (r ≡ ok a s))) ⊎ (r ≡ fault))
Run-cases (ok a s) = inl (a, (s, refl))
Run-cases fault = inr refl

abbrev pub Cmd : Type 0 → Type 0 → Type 0
Cmd S A = S → Run S A

module _ {S : Type 0} where
  abbrev pub pure : {A : Type 0} → A → Cmd S A
  pure a s = ok a s

  abbrev pub and_then : {A B : Type 0} → Run S A → (A → Cmd S B) → Run S B
  and_then (ok a s) f = f a s
  and_then fault f = fault

  infixl 5 ◌>>=◌ ◌>>◌
  abbrev pub ◌>>=◌ : {A B : Type 0} → Cmd S A → (A → Cmd S B) → Cmd S B
  ◌>>=◌ m f s = and_then (m s) f

  abbrev pub ◌>>◌ : {A B : Type 0} → Cmd S A → Cmd S B → Cmd S B
  ◌>>◌ m k s = and_then (m s) (λ _. k)

  -- Reads and replaces the whole state.
  abbrev pub get : Cmd S S
  get s = ok s s

  abbrev pub put : S → Cmd S (Unit {0})
  put s _ = ok tt s

-- The run returns, and this holds of its result and its state.
abbrev pub Safe : {S A : Type 0} → (A → S → Type 0) → Run S A → Type 0
Safe P (ok a s) = P a s
Safe P fault = ⊥

pub Safe-bind :
    {S A B : Type 0} (P : A → S → Type 0) (Q : B → S → Type 0) (r : Run S A) (f : A → Cmd S B)
    → Safe P r
    → ((a : A) (s : S) → P a s → Safe Q (f a s))
    → Safe Q (and_then r f)
Safe-bind P Q (ok a s) f h next = next a s h
Safe-bind P Q fault f h next = absurd h

pub Safe-map :
    {S A : Type 0} (P Q : A → S → Type 0) (r : Run S A)
    → Safe P r
    → ((a : A) (s : S) → P a s → Q a s)
    → Safe Q r
Safe-map P Q (ok a s) h f = f a s h
Safe-map P Q fault h f = absurd h

pub Safe-Returns :
    {S A : Type 0} (P : A → S → Type 0) (r : Run S A) → Safe P r → (a : A) × (s : S) × (r ≡ ok a s)
Safe-Returns P (ok a s) h = (a, s, refl)
Safe-Returns P fault h = absurd h

-- What holds of the result and the state of a run, if it returns.
abbrev pub Ends : {S A : Type 0} → (A → S → Type 0) → Run S A → Type 0
Ends P (ok a s) = P a s
Ends P fault = Unit {0}

pub Ends-bind :
    {S A B : Type 0} (P : A → S → Type 0) (Q : B → S → Type 0) (r : Run S A) (f : A → Cmd S B)
    → Ends P r
    → ((a : A) (s : S) → P a s → Ends Q (f a s))
    → Ends Q (and_then r f)
Ends-bind P Q (ok a s) f h next = next a s h
Ends-bind P Q fault f h next = tt

pub Ends-any : {S A : Type 0} (r : Run S A) → Ends (λ _ _. Unit {0}) r
Ends-any (ok a s) = tt
Ends-any fault = tt

pub Safe-Ends : {S A : Type 0} (P Q : A → S → Type 0) (r : Run S A) → Safe P r → Ends Q r → Safe Q r
Safe-Ends P Q (ok a s) h q = q
Safe-Ends P Q fault h q = absurd h

pub Safe-both :
    {S A : Type 0} (P Q : A → S → Type 0) (r : Run S A)
    → Safe P r
    → Ends Q r
    → Safe (λ a s. P a s × Q a s) r
Safe-both P Q (ok a s) h q = (h, q)
Safe-both P Q fault h q = absurd h
