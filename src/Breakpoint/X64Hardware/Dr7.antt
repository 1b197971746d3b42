-- ===== src/Breakpoint/X64Hardware/Dr7.antt =====
-- src/x64/breakpoint_x64.cc: struct dr7_ctx, the debug register dr7 as bit fields.
use master_lib.Base.{
  ℕ, ◌+◌, ◌-◌, ◌*◌, ◌/◌, ◌%◌, ◌^◌, ◌<◌, ◌≡◌, ap, ◌∙◌, arith, ltb, ◌==◌, ◌||◌, if◌then◌else◌,
}

-- Two bits each, but for the 8 bits of `unused`.
pub record Dr7Ctx : Type 0 where
  pub flags_dr0 : ℕ
  pub flags_dr1 : ℕ
  pub flags_dr2 : ℕ
  pub flags_dr3 : ℕ
  pub unused : ℕ
  pub trigger_dr0 : ℕ
  pub size_dr0 : ℕ
  pub trigger_dr1 : ℕ
  pub size_dr1 : ℕ
  pub trigger_dr2 : ℕ
  pub size_dr2 : ℕ
  pub trigger_dr3 : ℕ
  pub size_dr3 : ℕ

-- dr7_ctx(int): the 64-bit register is cut to 32 bits, and the fields lie from the low bits up.
unfoldable pub of_register : ℕ → Dr7Ctx
of_register v = record {
  flags_dr0 = v % 4;
  flags_dr1 = v / 2 ^ 2 % 4;
  flags_dr2 = v / 2 ^ 4 % 4;
  flags_dr3 = v / 2 ^ 6 % 4;
  unused = v / 2 ^ 8 % 256;
  trigger_dr0 = v / 2 ^ 16 % 4;
  size_dr0 = v / 2 ^ 18 % 4;
  trigger_dr1 = v / 2 ^ 20 % 4;
  size_dr1 = v / 2 ^ 22 % 4;
  trigger_dr2 = v / 2 ^ 24 % 4;
  size_dr2 = v / 2 ^ 26 % 4;
  trigger_dr3 = v / 2 ^ 28 % 4;
  size_dr3 = v / 2 ^ 30 % 4;
}

-- The 32 bits of the structure.
unfoldable pub word_of : Dr7Ctx → ℕ
word_of c =
    c.flags_dr0
    + 2 ^ 2 * c.flags_dr1
    + 2 ^ 4 * c.flags_dr2
    + 2 ^ 6 * c.flags_dr3
    + 2 ^ 8 * c.unused
    + 2 ^ 16 * c.trigger_dr0
    + 2 ^ 18 * c.size_dr0
    + 2 ^ 20 * c.trigger_dr1
    + 2 ^ 22 * c.size_dr1
    + 2 ^ 24 * c.trigger_dr2
    + 2 ^ 26 * c.size_dr2
    + 2 ^ 28 * c.trigger_dr3
    + 2 ^ 30 * c.size_dr3

-- operator int() gives a signed number, and the 64-bit register takes its sign extension.
unfoldable pub sign_extend : ℕ → ℕ
sign_extend n = if ltb n (2 ^ 31) then n else n + (2 ^ 64 - 2 ^ 32)

unfoldable pub to_register : Dr7Ctx → ℕ
unfolding word_of sign_extend
to_register c = sign_extend (word_of c)

word_of-of_register : (v : ℕ) → word_of (of_register v) ≡ v % 2 ^ 32
unfolding of_register word_of
word_of-of_register v = omega arith

to_register-low : (v : ℕ) → to_register (of_register v) % 2 ^ 32 ≡ v % 2 ^ 32
unfolding to_register sign_extend
to_register-low v = rw (word_of-of_register v) (ground arith)

to_register-high : (v : ℕ) → to_register (of_register v) / 2 ^ 32 ≡ v / 2 ^ 31 % 2 * (2 ^ 32 - 1)
unfolding to_register sign_extend
to_register-high v = rw (word_of-of_register v) (ground arith)

-- A 64-bit register that goes through the structure keeps its lower half, and its upper half becomes
-- all zeros or all ones, as bit 31 is: so it comes back unchanged exactly where its upper 33 bits are
-- all zeros or all ones.
pub to_register-of_register :
    (v : ℕ)
    → v < 2 ^ 64
    → let v' = to_register (of_register v) in
      (v' % 2 ^ 32 ≡ v % 2 ^ 32)
      × (v' / 2 ^ 32 ≡ v / 2 ^ 31 % 2 * (2 ^ 32 - 1))
      × ((v' == v) ≡ (v / 2 ^ 31 == 0 || v / 2 ^ 31 == 2 ^ 33 - 1))
to_register-of_register v fits =
    (to_register-low v, to_register-high v, ground (arith, to_register-low v, to_register-high v))

-- Every field fits its bits.
pub record Fits (c : Dr7Ctx) : Type 0 where
  pub flags_dr0 : c.flags_dr0 < 4
  pub flags_dr1 : c.flags_dr1 < 4
  pub flags_dr2 : c.flags_dr2 < 4
  pub flags_dr3 : c.flags_dr3 < 4
  pub unused : c.unused < 256
  pub trigger_dr0 : c.trigger_dr0 < 4
  pub size_dr0 : c.size_dr0 < 4
  pub trigger_dr1 : c.trigger_dr1 < 4
  pub size_dr1 : c.size_dr1 < 4
  pub trigger_dr2 : c.trigger_dr2 < 4
  pub size_dr2 : c.size_dr2 < 4
  pub trigger_dr3 : c.trigger_dr3 < 4
  pub size_dr3 : c.size_dr3 < 4

pub of_register-Fits : (v : ℕ) → Fits (of_register v)
unfolding of_register
of_register-Fits v = omega arith

sign_extend-mod : (n : ℕ) → n < 2 ^ 32 → sign_extend n % 2 ^ 32 ≡ n
unfolding sign_extend
sign_extend-mod n h = ground arith

of_register-mod : (v : ℕ) → of_register v ≡ of_register (v % 2 ^ 32)
unfolding of_register
of_register-mod v = λ i. record {
  flags_dr0 = (let e : v % 4 ≡ v % 2 ^ 32 % 4 = omega arith in e) i;
  flags_dr1 = (let e : v / 2 ^ 2 % 4 ≡ v % 2 ^ 32 / 2 ^ 2 % 4 = omega arith in e) i;
  flags_dr2 = (let e : v / 2 ^ 4 % 4 ≡ v % 2 ^ 32 / 2 ^ 4 % 4 = omega arith in e) i;
  flags_dr3 = (let e : v / 2 ^ 6 % 4 ≡ v % 2 ^ 32 / 2 ^ 6 % 4 = omega arith in e) i;
  unused = (let e : v / 2 ^ 8 % 256 ≡ v % 2 ^ 32 / 2 ^ 8 % 256 = omega arith in e) i;
  trigger_dr0 = (let e : v / 2 ^ 16 % 4 ≡ v % 2 ^ 32 / 2 ^ 16 % 4 = omega arith in e) i;
  size_dr0 = (let e : v / 2 ^ 18 % 4 ≡ v % 2 ^ 32 / 2 ^ 18 % 4 = omega arith in e) i;
  trigger_dr1 = (let e : v / 2 ^ 20 % 4 ≡ v % 2 ^ 32 / 2 ^ 20 % 4 = omega arith in e) i;
  size_dr1 = (let e : v / 2 ^ 22 % 4 ≡ v % 2 ^ 32 / 2 ^ 22 % 4 = omega arith in e) i;
  trigger_dr2 = (let e : v / 2 ^ 24 % 4 ≡ v % 2 ^ 32 / 2 ^ 24 % 4 = omega arith in e) i;
  size_dr2 = (let e : v / 2 ^ 26 % 4 ≡ v % 2 ^ 32 / 2 ^ 26 % 4 = omega arith in e) i;
  trigger_dr3 = (let e : v / 2 ^ 28 % 4 ≡ v % 2 ^ 32 / 2 ^ 28 % 4 = omega arith in e) i;
  size_dr3 = (let e : v / 2 ^ 30 % 4 ≡ v % 2 ^ 32 / 2 ^ 30 % 4 = omega arith in e) i;
}

word_of-lt : (c : Dr7Ctx) → Fits c → word_of c < 2 ^ 32
unfolding word_of
word_of-lt c f = omega arith

of_register-word_of : (c : Dr7Ctx) → Fits c → of_register (word_of c) ≡ c
unfolding of_register word_of
of_register-word_of c f = ground arith

-- What is written to the register is read back field by field.
pub of_register-to_register : (c : Dr7Ctx) → Fits c → of_register (to_register c) ≡ c
unfolding to_register
of_register-to_register c f =
    of_register-mod (sign_extend (word_of c))
    ∙ ap of_register (sign_extend-mod (word_of c) (word_of-lt c f))
    ∙ of_register-word_of c f
