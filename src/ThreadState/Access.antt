-- ===== src/ThreadState/Access.antt =====
-- src/thread_state.h: reading and writing through a ThreadState::Register, at a type of `size` bytes.
-- The register's pointer leads into thread_state_; none stands for an access that leaves it, which is
-- undefined behaviour.
use master_lib.Base.{
  ℕ, ◌+◌, ◌*◌, ◌%◌, ◌^◌, ◌<◌, ◌≤◌, ◌≡◌, refl, ◌∙◌, List, Option, none, some, length, leb,
  if◌then◌else◌, arith, Bool-cases, inl, inr, true, length-append,
}
use master_lib.ThreadState.{Arch, x64, x86, armv7, aarch64, Location, word, cpsr, pad, ThreadState}
use master_lib.ThreadState.Bytes.{
  take, drop, le_bytes, le_value, bytes_of, words_of, store_bytes, AllBelow, length-le_bytes,
  le_value-le_bytes, le_bytes-AllBelow, AllBelow-append, take-AllBelow, drop-AllBelow, length-take,
  length-drop,
}
use master_lib.ThreadState.Bytes.Words.{
  set_word, length-bytes_of, bytes_of-AllBelow, bytes_of-words_of, take-store_bytes,
  words_of-store_bytes,
}

-- The bytes of a word of thread_state_.
abbrev pub width : Arch → ℕ
width x64 = 8
width x86 = 4
width armv7 = 4
width aarch64 = 8

-- Where value_ leads: __cpsr and __pad follow the 33 words of arm_thread_state64_t.
abbrev pub offset : Arch → Location → ℕ
offset a (word i) = width a * i
offset a cpsr = 8 * 33
offset a pad = 8 * 33 + 4

-- The bytes of thread_state_.
abbrev pub bytes : ThreadState → List ℕ
bytes s = bytes_of (width s.arch) s.thread_state

-- Value<U>() and operator U()
unfoldable pub value : (size : ℕ) → Location → ThreadState → Option ℕ
value size l s =
    if leb (offset s.arch l + size) (length (bytes s))
    then some (le_value (take size (drop (offset s.arch l) (bytes s))))
    else none

-- operator=(U)
unfoldable pub assign : (size : ℕ) → Location → ℕ → ThreadState → Option ThreadState
assign size l v s =
    if leb (offset s.arch l + size) (length (bytes s))
    then some (record s {
      thread_state =
          words_of (length s.thread_state) (width s.arch)
            (store_bytes (offset s.arch l) (le_bytes size v) (bytes s));
    })
    else none

length-store_bytes :
    (i : ℕ) (new bs : List ℕ)
    → i + length new ≤ length bs
    → length (store_bytes i new bs) ≡ length bs
length-store_bytes i new bs h =
    rw (length-append, length-append, length-take i bs (omega (arith, h)), length-drop)
      (omega (arith, h))

store_bytes-AllBelow :
    (i : ℕ) (new bs : List ℕ)
    → AllBelow 256 new
    → AllBelow 256 bs
    → AllBelow 256 (store_bytes i new bs)
store_bytes-AllBelow i new bs hn hb =
    AllBelow-append 256 (take i bs) _ (take-AllBelow 256 i bs hb)
      (AllBelow-append 256 new _ hn (drop-AllBelow 256 _ bs hb))

-- Reading through the register after a write.
abbrev pub reread : (size : ℕ) → Location → Option ThreadState → Option ℕ
reread size l none = none
reread size l (some s) = value size l s

assigned_bytes :
    (size : ℕ) (l : Location) (v : ℕ) (s : ThreadState)
    → offset s.arch l + size ≤ length (bytes s)
    → bytes_of (width s.arch) (
        words_of
          (length s.thread_state)
          (width s.arch)
          (store_bytes (offset s.arch l) (le_bytes size v) (bytes s)))
      ≡ store_bytes (offset s.arch l) (le_bytes size v) (bytes s)
assigned_bytes size l v s h =
    let new = le_bytes size v in
    let fits : offset s.arch l + length new ≤ length (bytes s) = rw (length-le_bytes size v) h in
    bytes_of-words_of (length s.thread_state) (width s.arch)
      (store_bytes (offset s.arch l) new (bytes s))
      (length-store_bytes (offset s.arch l) new (bytes s) fits
        ∙ length-bytes_of (width s.arch) s.thread_state)
      (store_bytes-AllBelow (offset s.arch l) new (bytes s) (le_bytes-AllBelow size v)
        (bytes_of-AllBelow (width s.arch) s.thread_state))

-- A value of any size that is written through a register is read back through it, cut to that size,
-- where the access stays within the structure; and where it does not, both accesses leave it.
pub reread-assign :
    (size : ℕ) (l : Location) (v : ℕ) (s : ThreadState)
    → reread size l (assign size l v s)
      ≡ (if leb (offset s.arch l + size) (length (bytes s)) then some (v % 256 ^ size) else none)
unfolding assign value
reread-assign size l v s = elim (Bool-cases (leb (offset s.arch l + size) (length (bytes s)))) [
  | inr out ↦ rw out refl
  | inl fits ↦
      let room : offset s.arch l + size ≤ length (bytes s) = ground (arith, fits) in
      let new = le_bytes size v in
      let start : offset s.arch l ≤ length (bytes s) = omega (arith, room) in
      let enough : offset s.arch l + length new ≤ length (bytes s) =
        rw (length-le_bytes size v) room in
      rw
        (
          fits,
          assigned_bytes size l v s room,
          length-store_bytes (offset s.arch l) new (bytes s) enough,
          fits,
          take-store_bytes (offset s.arch l) size new (bytes s) start (length-le_bytes size v),
          le_value-le_bytes size v,
        )
        refl
]

word_inside : (a : Arch) (i n : ℕ) → i < n → leb (width a * i + width a) (width a * n) ≡ true
word_inside x64 i n h = ground arith
word_inside x86 i n h = ground arith
word_inside armv7 i n h = ground arith
word_inside aarch64 i n h = ground arith

-- A write of a whole word through a register changes this word, to the value cut to the word, and
-- nothing else of the structure.
pub assign-set_word :
    (i v : ℕ) (s : ThreadState)
    → i < length s.thread_state
    → AllBelow (256 ^ width s.arch) s.thread_state
    → assign (width s.arch) (word i) v s
      ≡ some (record s { thread_state = set_word i (v % 256 ^ width s.arch) s.thread_state })
unfolding assign
assign-set_word i v s h b =
    rw
      (
        length-bytes_of,
        word_inside s.arch i (length s.thread_state) h,
        words_of-store_bytes (width s.arch) i v s.thread_state h b,
      )
      refl
