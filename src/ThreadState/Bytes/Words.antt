-- ===== src/ThreadState/Bytes/Words.antt =====
-- Structures as bytes and as words: what a store of bytes does to the words.
use native.Mathlib.Nat.{zero-add, mul-suc, mul-zero, add_assoc, add_comm, mod-eq_of_lt}
use mathlib.Core.List.{append_assoc}
use master_lib.Base.{
  ℕ, zero, suc, ◌+◌, ◌*◌, ◌%◌, ◌^◌, ◌<◌, ◌≤◌, ◌≡◌, refl, sym, ◌∙◌, List, [], ◌∷◌, ◌++◌, arith,
  length, length-append,
}
use master_lib.ThreadState.Bytes.{
  take, drop, le_bytes, bytes_of, words_of, store_bytes, AllBelow, take-append, drop-append,
  take-exact, drop-exact, length-le_bytes, le_value-le_bytes, le_bytes-AllBelow, le_bytes-le_value,
  AllBelow-append, take-AllBelow, drop-AllBelow, length-take, length-drop, take-drop,
}

-- Bytes that fill `count` words survive being read as words.
pub bytes_of-words_of :
    (count width : ℕ) (bs : List ℕ)
    → length bs ≡ width * count
    → AllBelow 256 bs
    → bytes_of width (words_of count width bs) ≡ bs
bytes_of-words_of zero width [] h b = refl
bytes_of-words_of zero width (x ∷ bs) h b = absurd (omega (arith, h))
bytes_of-words_of (suc n) width bs h b =
    let full : length bs ≡ width * n + width = h ∙ mul-suc width n in
    let room : width ≤ length bs = omega (arith, full) in
    let rest : length (drop width bs) ≡ width * n = omega (arith, full, length-drop width bs) in
    rw
      (
        le_bytes-le_value width (take width bs) (length-take width bs room)
            (take-AllBelow 256 width bs b),
        bytes_of-words_of n width (drop width bs) rest (drop-AllBelow 256 width bs b),
      )
      (take-drop width bs)

pub length-bytes_of : (width : ℕ) (ws : List ℕ) → length (bytes_of width ws) ≡ width * length ws
length-bytes_of width [] = sym (mul-zero width)
length-bytes_of width (w ∷ ws) =
    rw (length-append, length-le_bytes, length-bytes_of width ws, mul-suc) (omega arith)

pub bytes_of-AllBelow : (width : ℕ) (ws : List ℕ) → AllBelow 256 (bytes_of width ws)
bytes_of-AllBelow width [] = tt
bytes_of-AllBelow width (w ∷ ws) =
    AllBelow-append 256 (le_bytes width w) _ (le_bytes-AllBelow width w)
      (bytes_of-AllBelow width ws)

-- The bytes that a store has put in place.
pub take-store_bytes :
    (offset size : ℕ) (new bs : List ℕ)
    → offset ≤ length bs
    → length new ≡ size
    → take size (drop offset (store_bytes offset new bs)) ≡ new
take-store_bytes offset size new bs h e =
    rw
      (
        drop-exact (take offset bs) (new ++ drop (offset + length new) bs) offset
            (length-take offset bs h),
        take-exact new (drop (offset + length new) bs) size e,
      )
      refl

pub words_of-bytes_of :
    (width : ℕ) (ws : List ℕ)
    → AllBelow (256 ^ width) ws
    → words_of (length ws) width (bytes_of width ws) ≡ ws
words_of-bytes_of width [] b = refl
words_of-bytes_of width (w ∷ ws) b =
    rw
      (
        take-exact (le_bytes width w) (bytes_of width ws) width (length-le_bytes width w),
        drop-exact (le_bytes width w) (bytes_of width ws) width (length-le_bytes width w),
        le_value-le_bytes width w,
        mod-eq_of_lt b.0,
        words_of-bytes_of width ws b.1,
      )
      refl

-- Storing a whole word.
abbrev pub set_word : ℕ → ℕ → List ℕ → List ℕ
set_word i v [] = []
set_word zero v (w ∷ ws) = v ∷ ws
set_word (suc i) v (w ∷ ws) = w ∷ set_word i v ws

-- A store past the first word.
store_bytes-append :
    (xs ys new : List ℕ) (n i : ℕ)
    → length xs ≡ n
    → store_bytes (n + i) new (xs ++ ys) ≡ xs ++ store_bytes i new ys
store_bytes-append xs ys new n i h =
    rw (take-append xs ys n i h, add_assoc n i (length new), drop-append xs ys n (i + length new) h)
      (append_assoc xs (take i ys) _)

store_bytes-first :
    (xs ys new : List ℕ) → length xs ≡ length new → store_bytes 0 new (xs ++ ys) ≡ new ++ ys
store_bytes-first xs ys new h = rw (zero-add, drop-exact xs ys (length new) h) refl

pub words_of-store_bytes :
    (width i v : ℕ) (ws : List ℕ)
    → i < length ws
    → AllBelow (256 ^ width) ws
    → words_of (length ws) width (store_bytes (width * i) (le_bytes width v) (bytes_of width ws))
      ≡ set_word i (v % 256 ^ width) ws
words_of-store_bytes width i v [] h b = absurd (omega (arith, h))
words_of-store_bytes width zero v (w ∷ ws) h b =
    let new = le_bytes width v in
    rw
      (
        mul-zero,
        store_bytes-first (le_bytes width w) (bytes_of width ws) new
            (length-le_bytes width w ∙ sym (length-le_bytes width v)),
        take-exact new (bytes_of width ws) width (length-le_bytes width v),
        drop-exact new (bytes_of width ws) width (length-le_bytes width v),
        le_value-le_bytes width v,
        words_of-bytes_of width ws b.1,
      )
      refl
words_of-store_bytes width (suc i) v (w ∷ ws) h b =
    let new = le_bytes width v in
    let old = le_bytes width w in
    let rest = store_bytes (width * i) new (bytes_of width ws) in
    rw
      (
        mul-suc,
        add_comm (width * i) width,
        store_bytes-append old (bytes_of width ws) new width (width * i) (length-le_bytes width w),
        take-exact old rest width (length-le_bytes width w),
        drop-exact old rest width (length-le_bytes width w),
        le_value-le_bytes width w,
        mod-eq_of_lt b.0,
        words_of-store_bytes width i v ws (omega (arith, h)) b.1,
      )
      refl
