-- ===== src/Log/Tests.antt =====
-- xv6/log.c at concrete inputs, and its theorems there.
use operation_system.Base.{
  ℕ, ◌≡◌, refl, ◌⊎◌, true, false, List, [], ◌∷◌, arith, ◌==◌, if◌then◌else◌, replicate,
}
use operation_system.Log.Disk.{Block, Store, bwrite, reboot}
use operation_system.Log.{
  Log, put_blocks, get_blocks, encode, decode, install_from, install_trans, read_head, write_head,
  recover_from_log, write_log_from, write_log, commit,
}
use operation_system.Log.Crash.{Clean}
use operation_system.Log.Atomic.{restarts, Ready, commit-atomic, commit-durable}
use operation_system.Log.Space.{Calls, Event, begin, write, end, commit_done}

abbrev zeros : Block
zeros = replicate 128 0

abbrev ones : Block
ones = replicate 128 1

-- A transaction that changes block 100 of a disk of zeros.
abbrev one_block : Log
one_block = record {
  start = 2;
  size = 31;
  outstanding = 0;
  committing = true;
  dev = 1;
  lh = 100 ∷ [];
}

abbrev store : ℕ → Store
store power = record {
  disk = λ b. zeros;
  view = λ b. if 100 == b then ones else zeros;
  power = power;
}

abbrev installed_on : ℕ → Block
installed_on power =
    (recover_from_log one_block (reboot (commit one_block (store power)).1 100)).1.disk 100

-- The power fails before the header is written, and right behind it.
crash_points : (installed_on 1 ≡ zeros) × (installed_on 2 ≡ ones)
unfolding commit recover_from_log write_log write_head install_trans read_head write_log_from
    install_from encode decode put_blocks get_blocks bwrite reboot
crash_points = (refl, refl)

Ready-store : (power : ℕ) → Ready one_block (store power)
unfolding decode get_blocks
Ready-store power = record {
  fits = record { outside = (omega arith, tt); in_log = omega arith; in_head = omega arith };
  clean = record { room = omega arith; head = refl; has = λ b o. refl };
  head_view = omega arith;
  synced = λ b o m. ground (arith, m);
}

commit-atomic_example :
    let crashed = restarts one_block (commit one_block (store 2)).1 (0 ∷ 1 ∷ []) in
    let d = (recover_from_log one_block (reboot crashed 40)).1.disk in
    Clean 2 31 d (store 2).disk ⊎ Clean 2 31 d (store 2).view
commit-atomic_example =
    commit-atomic one_block (store 2) (0 ∷ 1 ∷ []) 40 (Ready-store 2) (omega arith)

commit-durable_example :
    Clean 2 31 (commit one_block (store 4)).1.disk (store 4).view
    × ((commit one_block (store 4)).0.lh ≡ [])
commit-durable_example = commit-durable one_block (store 4) (Ready-store 4) (omega arith)

-- Two calls are active; the log already has one block.
abbrev calls : Calls
calls = record {
  log = record {
    start = 2;
    size = 31;
    outstanding = 2;
    committing = false;
    dev = 1;
    lh = 100 ∷ [];
  };
  store = store 0;
  budgets = 10 ∷ 3 ∷ [];
}

abbrev events : List Event
events = write 0 100 zeros ∷ write 1 200 ones ∷ begin ∷ end 0 ∷ end 0 ∷ commit_done ∷ begin ∷ []
