-- ===== src/Tests/Lookups.antt =====
-- Runs of the process lookups: the machine lists the pids 7 and 9, and a second machine has lost its
-- processes at the second listing.
use master_lib.Base.{◌≡◌, refl, true, false, ◌==◌, if◌then◌else◌}
use master_lib.Base.Run.{fault}
use master_lib.Mach.{Kernel}
use master_lib.Process.Listing.{list_pids, process_exists, get_process, exists_loop}
use master_lib.Process.Lookup.{get_process-vanished}
use master_lib.Tests.Machine.{Machine, machine, start}

-- The first listing suspends thread 0, and the next ones are empty.
abbrev losing : Kernel Machine
losing = record machine {
  proc_listpids_size = λ w. (if w.suspends 0 == 0 then 2 else 0, machine.thread_suspend 0 w);
}

there : (process_exists losing 9 start).0 ≡ true
unfolding process_exists list_pids exists_loop
there = refl

lost : (process_exists losing 9 (process_exists losing 9 start).1).0 ≡ false
unfolding process_exists list_pids exists_loop
lost = refl

get_process-vanished_example : get_process losing 9 start ≡ fault
get_process-vanished_example = get_process-vanished losing 9 start there lost
