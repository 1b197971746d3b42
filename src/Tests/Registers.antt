-- ===== src/Tests/Registers.antt =====
-- Runs of the registers of thread states, of the thread lists and of GetProcess by name.
use master_lib.Base.{ℕ, zero, suc, ◌≡◌, refl, true, List, [], ◌∷◌, some}
use master_lib.Host.{x86_64}
use master_lib.ThreadState.{Arch, x64, x86, ThreadState, table}
use master_lib.ThreadState.Description.{description, succeeded, succeeded-description}
use master_lib.Process.Listing.{list_pids, get_process_named, str_equal}
use master_lib.Process.Threads.{threads, platform, running_platform}
use master_lib.Process.Others.{thread_of, thread_of-threads}
use master_lib.Process.Named.{IsProcessOf, get_process_named-IsProcessOf}
use master_lib.Tests.Machine.{machine, start}
use master_lib.Tests.Memory.{shell}

abbrev zeros : ℕ → List ℕ
zeros zero = []
zeros (suc n) = 0 ∷ zeros n

abbrev blank : Arch → ℕ → ThreadState
blank a n = record {
  arch = a;
  thread = 5;
  thread_state = zeros n;
  debug_state = [];
  vfp_state = [];
  neon_state = [];
  exception_state = [];
  registers = [];
}

-- An object after its first Load.
abbrev first : ThreadState
first = record (blank x64 21) { registers = table x64 }

abbrev loaded : ThreadState
loaded = record (blank x86 16) { registers = table x86 }

succeeded-description_example : succeeded (description loaded) ≡ true
succeeded-description_example = succeeded-description loaded refl refl

thread_of-threads_example : thread_of (threads machine x86_64 shell 5 start).0 ≡ 3 ∷ 6 ∷ []
unfolding running_platform platform
thread_of-threads_example =
    thread_of-threads machine x86_64 shell 5 (3 ∷ 5 ∷ 6 ∷ []) start refl refl

abbrev ls : List ℕ
ls = b'l' ∷ b's' ∷ 0 ∷ []

get_process_named-IsProcessOf_example :
    IsProcessOf machine
      (λ p. ls)
      (λ p w. refl)
      (some 7)
      ls
      (get_process_named machine (some ls) start).0
unfolding list_pids get_process_named str_equal
get_process_named-IsProcessOf_example =
    get_process_named-IsProcessOf machine (λ p. ls) (λ p w. refl) ls start
