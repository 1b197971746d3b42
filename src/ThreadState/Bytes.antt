-- ===== src/ThreadState/Bytes.antt =====
-- A structure of the machine as its bytes, in the little-endian order of all four processors.
pub mod Words
use native.Mathlib.Nat.{
  suc-add, zero-add, add-zero, mul-suc, mul-zero, add_assoc, add_comm, mod-add-div, mod-lt,
  mod-eq_of_lt, add-mul-mod_self_left, pow-suc, mod-one,
}
use mathlib.Core.List.{append-nil, append_assoc}
use master_lib.Base.{
  ℕ, zero, suc, ◌+◌, ◌-◌, ◌*◌, ◌/◌, ◌%◌, ◌^◌, ◌<◌, ◌≤◌, ◌≡◌, refl, ap, sym, ◌∙◌, List, [], ◌∷◌,
  ◌++◌, arith, length, length-append,
}

abbrev pub take {ℓ} : {A : Type ℓ} → ℕ → List A → List A
take zero xs = []
take (suc n) [] = []
take (suc n) (x ∷ xs) = x ∷ take n xs

abbrev pub drop {ℓ} : {A : Type ℓ} → ℕ → List A → List A
drop zero xs = xs
drop (suc n) [] = []
drop (suc n) (x ∷ xs) = drop n xs

-- The `n` bytes of an object of that size.
abbrev pub le_bytes : ℕ → ℕ → List ℕ
le_bytes zero v = []
le_bytes (suc n) v = (v % 256) ∷ le_bytes n (v / 256)

abbrev pub le_value : List ℕ → ℕ
le_value [] = 0
le_value (b ∷ bs) = b + 256 * le_value bs

-- The bytes of words of `width` bytes, and words from their bytes.
abbrev pub bytes_of : ℕ → List ℕ → List ℕ
bytes_of width [] = []
bytes_of width (w ∷ ws) = le_bytes width w ++ bytes_of width ws

abbrev pub words_of : (count width : ℕ) → List ℕ → List ℕ
words_of zero width bs = []
words_of (suc n) width bs = le_value (take width bs) ∷ words_of n width (drop width bs)

-- A store of the bytes `new` at an offset.
abbrev pub store_bytes : ℕ → List ℕ → List ℕ → List ℕ
store_bytes offset new bs = take offset bs ++ (new ++ drop (offset + length new) bs)

abbrev pub AllBelow : ℕ → List ℕ → Type 0
AllBelow n [] = Unit {0}
AllBelow n (x ∷ xs) = (x < n) × AllBelow n xs

module _ {ℓ} {A : Type ℓ} where
  pub take-append :
      (xs ys : List A) (n i : ℕ) → length xs ≡ n → take (n + i) (xs ++ ys) ≡ xs ++ take i ys
  take-append [] ys zero i h = rw zero-add refl
  take-append [] ys (suc n) i h = absurd (omega (arith, h))
  take-append (x ∷ xs) ys zero i h = absurd (omega (arith, h))
  take-append (x ∷ xs) ys (suc n) i h =
      rw suc-add (ap (λ zs. x ∷ zs) (take-append xs ys n i (omega (arith, h))))

  pub drop-append : (xs ys : List A) (n i : ℕ) → length xs ≡ n → drop (n + i) (xs ++ ys) ≡ drop i ys
  drop-append [] ys zero i h = rw zero-add refl
  drop-append [] ys (suc n) i h = absurd (omega (arith, h))
  drop-append (x ∷ xs) ys zero i h = absurd (omega (arith, h))
  drop-append (x ∷ xs) ys (suc n) i h = rw suc-add (drop-append xs ys n i (omega (arith, h)))

  pub take-exact : (xs ys : List A) (n : ℕ) → length xs ≡ n → take n (xs ++ ys) ≡ xs
  take-exact xs ys n h =
      sym (ap (λ m. take m (xs ++ ys)) (add-zero n)) ∙ take-append xs ys n 0 h ∙ append-nil xs

  pub drop-exact : (xs ys : List A) (n : ℕ) → length xs ≡ n → drop n (xs ++ ys) ≡ ys
  drop-exact xs ys n h = sym (ap (λ m. drop m (xs ++ ys)) (add-zero n)) ∙ drop-append xs ys n 0 h

pub length-le_bytes : (n v : ℕ) → length (le_bytes n v) ≡ n
length-le_bytes zero v = refl
length-le_bytes (suc n) v = ap suc (length-le_bytes n (v / 256))

digit : (v p : ℕ) → 0 < p → v % (p * 256) ≡ v % 256 + 256 * (v / 256 % p)
digit v p h =
    let q = v / 256 / p in
    let r = v / 256 % p in
    let below : r < p = mod-lt (v / 256) h in
    let whole : r + p * q ≡ v / 256 = mod-add-div (v / 256) p in
    let nested : p * 256 * q ≡ 256 * (p * q) = grind arith in
    let parts : v ≡ v % 256 + 256 * r + p * 256 * q = omega (arith, whole, nested) in
    ap (λ x. x % (p * 256)) parts
    ∙ add-mul-mod_self_left (v % 256 + 256 * r) (p * 256) q
    ∙ mod-eq_of_lt (omega (arith, below))

pub power_positive : (n : ℕ) → 0 < 256 ^ n
power_positive zero = omega arith
power_positive (suc n) = rw pow-suc (omega (arith, power_positive n))

pub le_value-le_bytes : (n v : ℕ) → le_value (le_bytes n v) ≡ v % 256 ^ n
le_value-le_bytes zero v = sym (mod-one v)
le_value-le_bytes (suc n) v =
    rw (le_value-le_bytes n (v / 256), pow-suc) (sym (digit v (256 ^ n) (power_positive n)))

pub le_bytes-AllBelow : (n v : ℕ) → AllBelow 256 (le_bytes n v)
le_bytes-AllBelow zero v = tt
le_bytes-AllBelow (suc n) v = (omega arith, le_bytes-AllBelow n (v / 256))

pub le_bytes-le_value :
    (n : ℕ) (bs : List ℕ) → length bs ≡ n → AllBelow 256 bs → le_bytes n (le_value bs) ≡ bs
le_bytes-le_value zero [] h b = refl
le_bytes-le_value zero (x ∷ bs) h b = absurd (omega (arith, h))
le_bytes-le_value (suc n) [] h b = absurd (omega (arith, h))
le_bytes-le_value (suc n) (x ∷ bs) h b =
    let low : (x + 256 * le_value bs) % 256 ≡ x = omega (arith, b.0) in
    let high : (x + 256 * le_value bs) / 256 ≡ le_value bs = omega (arith, b.0) in
    rw (low, high, le_bytes-le_value n bs (omega (arith, h)) b.1) refl

pub AllBelow-append :
    (n : ℕ) (xs ys : List ℕ) → AllBelow n xs → AllBelow n ys → AllBelow n (xs ++ ys)
AllBelow-append n [] ys hx hy = hy
AllBelow-append n (x ∷ xs) ys hx hy = (hx.0, AllBelow-append n xs ys hx.1 hy)

pub take-AllBelow : (n i : ℕ) (xs : List ℕ) → AllBelow n xs → AllBelow n (take i xs)
take-AllBelow n zero xs h = tt
take-AllBelow n (suc i) [] h = tt
take-AllBelow n (suc i) (x ∷ xs) h = (h.0, take-AllBelow n i xs h.1)

pub drop-AllBelow : (n i : ℕ) (xs : List ℕ) → AllBelow n xs → AllBelow n (drop i xs)
drop-AllBelow n zero xs h = h
drop-AllBelow n (suc i) [] h = tt
drop-AllBelow n (suc i) (x ∷ xs) h = drop-AllBelow n i xs h.1

pub length-take {ℓ} : {A : Type ℓ} (n : ℕ) (xs : List A) → n ≤ length xs → length (take n xs) ≡ n
length-take zero xs h = refl
length-take (suc n) [] h = absurd (omega (arith, h))
length-take (suc n) (x ∷ xs) h = ap suc (length-take n xs (omega (arith, h)))

pub length-drop {ℓ} : {A : Type ℓ} (n : ℕ) (xs : List A) → length (drop n xs) ≡ length xs - n
length-drop zero xs = omega arith
length-drop (suc n) [] = omega arith
length-drop (suc n) (x ∷ xs) = omega (arith, length-drop n xs)

pub take-drop {ℓ} : {A : Type ℓ} (n : ℕ) (xs : List A) → take n xs ++ drop n xs ≡ xs
take-drop zero xs = refl
take-drop (suc n) [] = refl
take-drop (suc n) (x ∷ xs) = ap (λ ys. x ∷ ys) (take-drop n xs)
