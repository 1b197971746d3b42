-- ===== src/BreakpointHandler/Race.antt =====
-- src/breakpoint_handler.cc: BreakpointAtAddress, which runs on the thread of the server, while
-- InstallBreakpoint changes the vector on the client's thread. No lock keeps them apart.
pub mod Sound
pub mod Overlap
pub mod Turns
use master_lib.Base.{
  ℕ, ◌+◌, ◌≡◌, List, [], ◌∷◌, ◌++◌, Option, none, some, ltb, ◌==◌, if◌then◌else◌, length, get_elem?,
}
use master_lib.Breakpoint.{Breakpoint}

-- A std::vector: its elements, its capacity, and which storage it has by now.
pub record Vector : Type 0 where
  pub elements : List ℕ
  pub capacity : ℕ
  pub storage : ℕ

unfoldable pub all_but_last : List ℕ → List ℕ
all_but_last [] = []
all_but_last (p ∷ []) = []
all_but_last (p ∷ q ∷ ps) = p ∷ all_but_last (q ∷ ps)

-- The documented push_back: elements move to new storage where the capacity is used up. `grow` is the
-- library's choice of the new capacity.
unfoldable pub push_back : (ℕ → ℕ) → ℕ → Vector → Vector
push_back grow p v =
    if ltb (length v.elements) v.capacity
    then record v { elements = v.elements ++ p ∷ [] }
    else record {
      elements = v.elements ++ p ∷ [];
      capacity = grow v.capacity;
      storage = v.storage + 1;
    }

-- The client's thread: `pushed` between the push_back of InstallBreakpoint and the end of its Apply.
pub data Client : Type 0 where
  idle pushed : Client

-- The server's thread in `for (bp : breakpoints_)`, whose iterator and whose end are those of the
-- storage at the beginning; `invalid` once it has read through an iterator that was not valid any more
-- or a pointer that leads nowhere.
pub data Walk : Type 0 where
  walking : (storage index last : ℕ) → Walk
  answered : ℕ → Walk
  invalid : Walk

pub record Threads : Type 0 where
  pub vector : Vector
  pub client : Client
  pub server : Walk

-- One round of the loop. `objects` stays as it is: of the breakpoints the loop reads only the address,
-- which no function assigns after the constructor.
module _ (objects : ℕ → Option Breakpoint) (address : ℕ) where
  unfoldable pub visit : ℕ → (storage index last : ℕ) → Option Breakpoint → Walk
  visit p storage index last none = invalid
  visit p storage index last (some b) =
      if b.address == address then answered p else walking storage (index + 1) last

  unfoldable pub visit_element : (storage index last : ℕ) → Option ℕ → Walk
  unfolding visit
  visit_element storage index last none = invalid
  visit_element storage index last (some p) = visit p storage index last (objects p)

  unfoldable pub look : Vector → Walk → Walk
  unfolding visit_element
  look v (walking storage index last) =
      if index == last
      then answered 0
      else if storage == v.storage
      then visit_element storage index last (get_elem? v.elements index)
      else invalid
  look v w = w

  -- The steps of the two threads, in any order.
  pub data Turn (grow : ℕ → ℕ) : Threads → Threads → Type 0 where
    pushes :
        (p : ℕ) (s : Threads)
        → s.client ≡ idle
        → Turn grow s (record s { vector = push_back grow p s.vector; client = pushed })
    keeps : (s : Threads) → s.client ≡ pushed → Turn grow s (record s { client = idle })
    -- Apply has failed
    pops :
        (s : Threads)
        → s.client ≡ pushed
        → Turn grow s (record s {
          vector = record s.vector { elements = all_but_last s.vector.elements };
          client = idle;
        })
    looks : (s : Threads) → Turn grow s (record s { server = look s.vector s.server })

  pub data Reach (grow : ℕ → ℕ) (s : Threads) : Threads → Type 0 where
    here : Reach grow s s
    next : {u v : Threads} → Reach grow s u → Turn grow u v → Reach grow s v

-- The server begins the loop, while the client is in no call.
abbrev pub begun : Vector → Threads
begun v = record { vector = v; client = idle; server = walking v.storage 0 (length v.elements) }
