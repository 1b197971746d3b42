-- ===== src/Mach/Memory.antt =====
-- Documented behaviour of the memory calls, over an observer of the bytes of each task. The
-- hypotheses speak of one call: that the task's own threads write nothing in between is part of
-- them (Process::Pause is there for that).
use master_lib.Base.{
  ℕ, zero, suc, ◌+◌, ◌≤◌, ◌≡◌, refl, ◌∙◌, inl, inr, Bool, Bool-cases, ◌&&◌, List, [], ◌∷◌, arith,
  ltb, leb, ◌==◌, if◌then◌else◌, length,
}
use master_lib.Mach.{Kernel, kern_success}

-- The `n` bytes from address `a`.
abbrev pub bytes_at : (ℕ → ℕ) → (a n : ℕ) → List ℕ
bytes_at f a zero = []
bytes_at f a (suc n) = f a ∷ bytes_at f (a + 1) n

-- The memory `f` with `bs` written at `a`.
abbrev pub overwrite : (ℕ → ℕ) → ℕ → List ℕ → ℕ → ℕ
overwrite f a [] x = f x
overwrite f a (b ∷ bs) x = if x == a then b else overwrite f (a + 1) bs x

-- The memories `f` of all tasks with `bs` written at `a` in the task `t`.
abbrev pub written : (ℕ → ℕ → ℕ) → (t a : ℕ) → List ℕ → (u x : ℕ) → ℕ
written f t a bs u x = if u == t then overwrite (f t) a bs x else f u x

pub record MemoryLaws {W : Type 0} (k : Kernel W) (peek : W → ℕ → ℕ → ℕ) : Type 0 where
  pub read_ok :
      (t a n : ℕ) (out : List ℕ) (w : W)
      → (k.vm_read_overwrite t a n out w).0 ≡ kern_success
      → (k.vm_read_overwrite t a n out w).1 ≡ bytes_at (peek w t) a n
  pub read_peek :
      (t a n : ℕ) (out : List ℕ) (w : W) (u x : ℕ)
      → peek (k.vm_read_overwrite t a n out w).2 u x ≡ peek w u x
  pub protect_peek :
      (t a n : ℕ) (m : Bool) (p : ℕ) (w : W) (u x : ℕ)
      → peek (k.vm_protect t a n m p w).1 u x ≡ peek w u x
  pub write_ok :
      (t a : ℕ) (bs : List ℕ) (w : W)
      → (k.vm_write t a bs w).0 ≡ kern_success
      → (u x : ℕ) → peek (k.vm_write t a bs w).1 u x ≡ written (peek w) t a bs u x

pub length-bytes_at : (f : ℕ → ℕ) (a n : ℕ) → length (bytes_at f a n) ≡ n
length-bytes_at f a zero = refl
length-bytes_at f a (suc n) = omega (arith, length-bytes_at f (a + 1) n)

-- A write of bytes that were read from `f` gives `f` on the range, and nothing outside it.
pub overwrite-bytes_at :
    (f g : ℕ → ℕ) (a n x : ℕ)
    → overwrite g a (bytes_at f a n) x ≡ (if leb a x && ltb x (a + n) then f x else g x)
overwrite-bytes_at f g a zero x = ground arith
overwrite-bytes_at f g a (suc n) x = ground (arith, overwrite-bytes_at f g (a + 1) n x)

-- Writes of the same range: the first does not matter.
pub overwrite_outside :
    (f : ℕ → ℕ) (a : ℕ) (bs : List ℕ) (x : ℕ)
    → (leb a x && ltb x (a + length bs)) ≡ Bool.false
    → overwrite f a bs x ≡ f x
overwrite_outside f a [] x h = refl
overwrite_outside f a (b ∷ bs) x h = ground (arith, overwrite_outside f (a + 1) bs x)

pub bytes_at-cong :
    (f g : ℕ → ℕ) (a n : ℕ) → ((x : ℕ) → f x ≡ g x) → bytes_at f a n ≡ bytes_at g a n
bytes_at-cong f g a zero h = refl
bytes_at-cong f g a (suc n) h = ground (arith, h a, bytes_at-cong f g (a + 1) n h)

pub overwrite-cong :
    (f g : ℕ → ℕ) (a : ℕ) (bs : List ℕ) (x : ℕ)
    → f x ≡ g x
    → overwrite f a bs x ≡ overwrite g a bs x
overwrite-cong f g a [] x h = h
overwrite-cong f g a (b ∷ bs) x h = ground (arith, overwrite-cong f g (a + 1) bs x)

pub written-cong :
    (f g : ℕ → ℕ → ℕ) (t a : ℕ) (bs : List ℕ) (u x : ℕ)
    → ((v y : ℕ) → f v y ≡ g v y)
    → written f t a bs u x ≡ written g t a bs u x
written-cong f g t a bs u x h = ground (arith, overwrite-cong (f t) (g t) a bs x (h t x), h u x)

-- Bytes written at `a`, and then at least as many others there: the first do not matter.
pub overwrite-overwrite :
    (f : ℕ → ℕ) (a : ℕ) (bs cs : List ℕ) (x : ℕ)
    → length bs ≤ length cs
    → overwrite (overwrite f a bs) a cs x ≡ overwrite f a cs x
overwrite-overwrite f a [] cs x h = refl
overwrite-overwrite f a (b ∷ bs) [] x h = absurd (omega arith)
overwrite-overwrite f a (b ∷ bs) (c ∷ cs) x h = elim (Bool-cases (x == a)) [
  | inl e ↦ rw e refl
  | inr e ↦ rw e (
      overwrite-cong (overwrite f a (b ∷ bs)) (overwrite f (a + 1) bs) (a + 1) cs x (rw e refl)
      ∙ overwrite-overwrite f (a + 1) bs cs x (omega arith))
]

pub written-written :
    (f : ℕ → ℕ → ℕ) (t a : ℕ) (bs cs : List ℕ) (u x : ℕ)
    → length bs ≤ length cs
    → written (written f t a bs) t a cs u x ≡ written f t a cs u x
written-written f t a bs cs u x h = ground (arith, overwrite-overwrite (f t) a bs cs x)

-- Bytes written back where they were read.
pub written-bytes_at :
    (f : ℕ → ℕ → ℕ) (t a n u x : ℕ) → written f t a (bytes_at (f t) a n) u x ≡ f u x
written-bytes_at f t a n u x = ground (arith, overwrite-bytes_at (f t) (f t) a n x)

bytes_at-from :
    (f g : ℕ → ℕ) (a n : ℕ) → ((x : ℕ) → a ≤ x → f x ≡ g x) → bytes_at f a n ≡ bytes_at g a n
bytes_at-from f g a zero h = refl
bytes_at-from f g a (suc n) h =
    let later = bytes_at-from f g (a + 1) n (λ x le. h x (omega arith)) in
    ground (arith, h a (omega arith), later)

-- Bytes that are read where they were written.
pub bytes_at-overwrite :
    (f : ℕ → ℕ) (a : ℕ) (bs : List ℕ) → bytes_at (overwrite f a bs) a (length bs) ≡ bs
bytes_at-overwrite f a [] = refl
bytes_at-overwrite f a (b ∷ bs) =
    let later =
      bytes_at-from (overwrite f a (b ∷ bs)) (overwrite f (a + 1) bs) (a + 1) (length bs)
        (λ x le. ground arith) in
    ground (arith, later, bytes_at-overwrite f (a + 1) bs)
