-- ===== src/MachExc/Words.antt =====
-- Lemmas on the words of messages.
use master_lib.Base.{
  ℕ, zero, suc, ◌+◌, ◌*◌, ◌/◌, ◌%◌, ◌^◌, ◌<◌, ◌≡◌, refl, ap, List, [], ◌∷◌, arith,
}
use master_lib.MachExc.Message.{take_words, split_codes, join_codes}

-- Every code fits in 64 bits.
abbrev pub Fits64 : List ℕ → Type 0
Fits64 [] = Unit {0}
Fits64 (c ∷ cs) = (c < 2 ^ 64) × Fits64 cs

pub take_words-take_words : (n : ℕ) (ws : List ℕ) → take_words n (take_words n ws) ≡ take_words n ws
take_words-take_words zero ws = refl
take_words-take_words (suc n) [] = ap (λ ws. 0 ∷ ws) (take_words-take_words n [])
take_words-take_words (suc n) (w ∷ ws) = ap (λ vs. w ∷ vs) (take_words-take_words n ws)

pub take_words-Fits64 : (n : ℕ) (cs : List ℕ) → Fits64 cs → Fits64 (take_words n cs)
take_words-Fits64 zero cs h = tt
take_words-Fits64 (suc n) [] h = (omega arith, take_words-Fits64 n [] tt)
take_words-Fits64 (suc n) (c ∷ cs) h = (h.0, take_words-Fits64 n cs h.1)

pub split_code : (c : ℕ) → c < 2 ^ 64 → c % 2 ^ 32 + c / 2 ^ 32 % 2 ^ 32 * 2 ^ 32 ≡ c
split_code c h = omega arith

pub join_codes-split_codes : (cs : List ℕ) → Fits64 cs → join_codes (split_codes cs) ≡ cs
join_codes-split_codes [] h = refl
join_codes-split_codes (c ∷ cs) h = rw (split_code c h.0, join_codes-split_codes cs h.1) refl
