-- ===== src/ThreadState/Description.antt =====
-- The Description of the four classes of src/x64, src/x86, src/armv7 and src/aarch64: the text that
-- the stream gets, as the codes of its characters.
use native.Mathlib.Nat.{pow-suc, zero-mul, zero-add}
use master_lib.Base.{
  ℕ, zero, suc, ◌+◌, ◌-◌, ◌*◌, ◌/◌, ◌%◌, ◌^◌, ◌<◌, ◌≡◌, refl, ap, ◌∙◌, inl, inr, true, false, not,
  Bool, ◌&&◌, ◌||◌, List, [], ◌∷◌, ◌++◌, Option, none, some, arith, ltb, leb, if◌then◌else◌,
  Bool-cases, length,
}
use master_lib.ThreadState.{Arch, x64, x86, armv7, aarch64, Register, ThreadState, codes, table}
use master_lib.ThreadState.Registers.{same}
use master_lib.ThreadState.Bytes.Words.{length-bytes_of}
use master_lib.ThreadState.Access.{width, offset, bytes, value}

-- std::dec and std::hex
pub data Radix : Type 0 where
  dec hex : Radix

abbrev pub base : Radix → ℕ
base dec = 10
base hex = 16

abbrev digit_char : ℕ → ℕ
digit_char d = if ltb d 10 then b'0' + d else b'a' + (d - 10)

-- The digits of `n` before those in `text`. A 64-bit number has no more than 64 of them.
unfoldable pub digits : Radix → (fuel : ℕ) → ℕ → List ℕ → List ℕ
digits r zero n text = text
digits r (suc fuel) n text =
    let more = digits r fuel (n / base r) (digit_char (n % base r) ∷ text) in
    if ltb n (base r) then digit_char n ∷ text else more

-- stream << n
unfoldable pub print : Radix → ℕ → List ℕ
unfolding digits
print r n = digits r 64 n []

-- The size of the value that Description reads of a register.
unfoldable pub printed_size : Arch → Register → ℕ
printed_size x64 r = 8
printed_size x86 r = 4
printed_size armv7 r = 4
printed_size aarch64 r = if same r.name (codes "CPSR") || same r.name (codes "PAD") then 4 else 8

-- The line of a register with that value.
unfoldable pub line : Register → ℕ → List ℕ
unfolding print
line r v =
    r.name
    ++ (codes ": " ++ (print dec v ++ (codes " [" ++ (print hex v ++ (codes "]" ++ 10 ∷ [])))))

-- The loop over registers_; none where a register's value is read outside of the structure.
unfoldable pub describe : List Register → ThreadState → Option (List ℕ)
unfolding printed_size line
describe [] s = some []
describe (r ∷ rs) s =
    let rest = describe rs s in
    elim (value (printed_size s.arch r) r.location s) [
      | none ↦ none
      | some v ↦ elim rest [ none ↦ none | some text ↦ some (line r v ++ text) ]
    ]

unfoldable pub description : ThreadState → Option (List ℕ)
unfolding describe
description s = describe s.registers s

-- Reading digits, as a value after the digits before them.
abbrev digit_value : ℕ → ℕ
digit_value c = if ltb c b'a' then c - b'0' else c - b'a' + 10

abbrev number_from : Radix → ℕ → List ℕ → ℕ
number_from r n [] = n
number_from r n (c ∷ text) = number_from r (n * base r + digit_value c) text

abbrev pub number : Radix → List ℕ → ℕ
number r text = number_from r 0 text

digit_value-digit_char : (r : Radix) (d : ℕ) → d < base r → digit_value (digit_char d) ≡ d
digit_value-digit_char dec d h = ground arith
digit_value-digit_char hex d h = ground arith

rest_below : (r : Radix) (n p : ℕ) → n < p * 2 → n / base r < p
rest_below dec n p h = omega (arith, h)
rest_below hex n p h = omega (arith, h)

last_below : (r : Radix) (n : ℕ) → n % base r < base r
last_below dec n = omega arith
last_below hex n = omega arith

joined : (r : Radix) (n : ℕ) → n / base r * base r + n % base r ≡ n
joined dec n = omega arith
joined hex n = omega arith

one_digit : (r : Radix) (n : ℕ) → n < 2 → ltb n (base r) ≡ true
one_digit dec n h = ground arith
one_digit hex n h = ground arith

number_from-digit :
    (r : Radix) (n : ℕ) (text : List ℕ)
    → ltb n (base r) ≡ true
    → number_from r 0 (digit_char n ∷ text) ≡ number_from r n text
number_from-digit r n text small =
    let below : n < base r = ground (arith, small) in
    rw (digit_value-digit_char r n below, zero-mul, zero-add) refl

number_from-digits :
    (r : Radix) (fuel n : ℕ) (text : List ℕ)
    → n < 2 ^ suc fuel
    → number_from r 0 (digits r (suc fuel) n text) ≡ number_from r n text
unfolding digits
number_from-digits r zero n text h =
    rw (one_digit r n h) (number_from-digit r n text (one_digit r n h))
number_from-digits r (suc fuel) n text h = elim (Bool-cases (ltb n (base r))) [
  | inl small ↦ rw small (number_from-digit r n text small)
  | inr large ↦
      let smaller : n < 2 ^ suc fuel * 2 = rw (← pow-suc 2 (suc fuel)) h in
      rw large (
        number_from-digits r fuel (n / base r) (digit_char (n % base r) ∷ text)
          (rest_below r n (2 ^ suc fuel) smaller)
        ∙ ap (λ m. number_from r m text)
            (ap (λ d. n / base r * base r + d)
                (digit_value-digit_char r (n % base r) (last_below r n))
              ∙ joined r n))
]

-- A 64-bit number that Description prints is read back from its digits, decimal and hexadecimal.
number-print : (r : Radix) (n : ℕ) → n < 2 ^ 64 → number r (print r n) ≡ n
unfolding print
number-print r n h = number_from-digits r 63 n [] h

abbrev pub succeeded : {A : Type 0} → Option A → Bool
succeeded none = false
succeeded (some a) = true

-- Whether every register's value stands in a structure of so many bytes.
abbrev all_fit : Arch → ℕ → List Register → Bool
all_fit a n [] = true
all_fit a n (r ∷ rs) = leb (offset a r.location + printed_size a r) n && all_fit a n rs

succeeded-describe :
    (rs : List Register) (s : ThreadState)
    → succeeded (describe rs s) ≡ all_fit s.arch (length (bytes s)) rs
unfolding describe value
succeeded-describe [] s = refl
succeeded-describe (r ∷ rs) s =
    elim (Bool-cases (leb (offset s.arch r.location + printed_size s.arch r) (length (bytes s)))) [
      | inr out ↦ rw (out, describe) refl
      | inl fits ↦ rw (fits, describe) (kept (describe rs s) _ ∙ succeeded-describe rs s)
    ]
  where
    kept :
        (o : Option (List ℕ)) (x : List ℕ)
        → succeeded {A = List ℕ} (elim o [ none ↦ none | some text ↦ some (x ++ text) ])
          ≡ succeeded o
    kept none x = refl
    kept (some text) x = refl

-- The documented number of words of thread_state_.
abbrev pub word_count : Arch → ℕ
word_count x64 = 21
word_count x86 = 16
word_count armv7 = 17
word_count aarch64 = 34

abbrev pub is_aarch64 : Arch → Bool
is_aarch64 aarch64 = true
is_aarch64 _ = false

table_fits : (a : Arch) → all_fit a (width a * word_count a) (table a) ≡ not (is_aarch64 a)
unfolding printed_size table
table_fits x64 = refl
table_fits x86 = refl
table_fits armv7 = refl
table_fits aarch64 = refl

-- With the registers of one Load, and a structure of the documented size, `Description` returns a
-- text in every class but AArch64ThreadState, where it reads a register behind the structure.
pub succeeded-description :
    (s : ThreadState)
    → s.registers ≡ table s.arch
    → length s.thread_state ≡ word_count s.arch
    → succeeded (description s) ≡ not (is_aarch64 s.arch)
unfolding description
succeeded-description s registers full =
    rw (registers, succeeded-describe, length-bytes_of, full) (table_fits s.arch)
