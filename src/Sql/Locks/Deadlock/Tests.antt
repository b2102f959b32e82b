-- ===== src/Sql/Locks/Deadlock/Tests.antt =====
-- Runs of the search for deadlocks.
use goods_db.Prelude.{ℕ, ◌≡◌, refl, ◌⊎◌, true, false, [], ◌∷◌, Bool, ◌==◌}
use goods_db.Prelude.Assoc.{lookup, erase, put}
use goods_db.Sql.Locks.{LockEntry, LockManager, exclusive}
use goods_db.Sql.Locks.Deadlock.{
  wait_for, wait_for_entry, waits_for_graph, unless_cycle, dfs_each, blacken, dfs, search_from,
  nodes, detect_deadlock, rehashed, proceed, answered, locked_twice, invalid_iterator,
}
use goods_db.Sql.Locks.Deadlock.Edges.{Waits}
use goods_db.Sql.Locks.Deadlock.Cycles.{WaitsFor, detect_deadlock-WaitsFor}

abbrev held : ℕ → ℕ → LockEntry
held txn waiter = record { mode = exclusive; count = 1; txn_id = txn; waiting_txns = waiter ∷ [] }

abbrev locked : ℕ → LockManager
locked last = record {
  row_locks = (10, held 1 2) ∷ (11, held 2 3) ∷ (12, held 3 last) ∷ [];
  table_locks = [];
  txn_locks = [];
  deadlock_count = 0;
  total_wait_count = 0;
  total_wait_time_us = 0;
}

searched : Unit {0}
unfolding lookup erase put wait_for wait_for_entry waits_for_graph dfs_each unless_cycle blacken dfs
    rehashed proceed search_from nodes detect_deadlock
searched = tt

-- A map that rehashes for the transaction 1 only.
abbrev rehashes : ℕ → Bool
rehashes txn = txn == 1

-- The transactions 1, 2 and 3 wait in a ring, or 3 is waited for by 4.
ring : detect_deadlock false rehashes (locked 1) ≡ answered true
ring = unfold searched in refl

line : detect_deadlock false (λ txn. false) (locked 4) ≡ answered false
line = unfold searched in refl

line_lost : detect_deadlock false rehashes (locked 4) ≡ invalid_iterator
line_lost = unfold searched in refl

detect_deadlock-WaitsFor_example :
    ((detect_deadlock false rehashes (locked 1) ≡ answered true)
        × ((txn : ℕ) × WaitsFor (locked 1).row_locks txn txn)
      ⊎ (detect_deadlock false rehashes (locked 1) ≡ answered false)
        × ((txn : ℕ) → ¬ WaitsFor (locked 1).row_locks txn txn)
      ⊎ (detect_deadlock false rehashes (locked 1) ≡ invalid_iterator)
        × ((txn : ℕ) × (rehashes txn ≡ true) × ((b : ℕ) → ¬ Waits (locked 1).row_locks txn b)))
    × (detect_deadlock true rehashes (locked 1) ≡ locked_twice)
detect_deadlock-WaitsFor_example = detect_deadlock-WaitsFor rehashes (locked 1)
