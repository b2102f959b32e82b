-- ===== src/Sql/Locks/Deadlock/Cycles.antt =====
-- `DetectDeadlock` of goods_db/src/sql/lock_manager.cpp and the transactions that wait.

use mathlib.Core.List.{Memᴰ}
use mathlib.Core.List.Memᴰ
use mathlib.Core.Logic.{⊎_elim}
use goods_db.Prelude.{
  ℕ, ◌≡◌, refl, sym, subst, ◌⊎◌, ◌↔◌, inl, inr, List, [], Bool, true, false, arith, length,
}
use goods_db.Prelude.Assoc.{lookup}
use goods_db.Sql.Locks.{LockEntry, LockManager}
use goods_db.Sql.Locks.Deadlock.{
  Graph, neighbors, Colors, waits_for_graph, keys, nodes, dfs, search_from, detect_deadlock,
  Detection, answered, locked_twice, invalid_iterator, no_fuel, rehashed,
}
use goods_db.Sql.Locks.Deadlock.Edges.{
  Waits, neighbors-waits_for_graph, keys-neighbors, nodes-keys, nodes-neighbors,
}
use goods_db.Sql.Locks.Deadlock.Whites.{whites-length}
use goods_db.Sql.Locks.Deadlock.Search.{Edge, Walk, edge, extend, Safe, safe, dfs-Decides}
use goods_db.Sql.Locks.Deadlock.Loop.{Ended, rehashed-key, search_from-Ended}

module _ (graph : Graph) where
  Edge-first : {a b : ℕ} → Walk graph a b → (n : ℕ) × Edge graph a n × ((n ≡ b) ⊎ Walk graph n b)
  Edge-first {a} {b} (edge e) = (b, e, inl refl)
  Edge-first (extend {b} {c} p e) =
      let (n, f, q) = Edge-first p in
      (n, f, ⊎_elim (λ k. inr (edge (rw k e))) (λ r. inr (extend r e)) q)

  turn : (a n : ℕ) → Edge graph a n → (n ≡ a) ⊎ Walk graph n a → Walk graph n n
  turn a n e (inl k) = edge (subst (λ x. Edge graph x n) (sym k) e)
  turn a n e (inr p) = extend p e

  Safe-acyclic : (a : ℕ) → Safe graph a → ¬ Walk graph a a
  Safe-acyclic a (safe h) p = let (n, e, q) = Edge-first p in Safe-acyclic n (h n e) (turn a n e q)

  -- What the whole search comes to, from white nodes on.
  search_from-cycle :
      (moved : Colors → Bool)
      → Ended graph moved
          (keys graph)
          []
          (search_from moved (dfs graph (length (nodes graph))) graph [])
  unfolding lookup
  search_from-cycle moved =
      search_from-Ended graph moved (nodes graph) (length (nodes graph))
        (dfs graph (length (nodes graph)))
        (dfs-Decides graph (nodes graph) (nodes-neighbors graph) (length (nodes graph))) graph []
        (nodes-keys graph) (whites-length (nodes graph) []) (λ x e. absurd (omega arith))
        (λ x e. cc)

-- The first transaction waits for the second one, over one or more waits.
pub data WaitsFor (locks : List (ℕ × LockEntry)) (a : ℕ) : ℕ → Type 0 where
  wait : {b : ℕ} → Waits locks a b → WaitsFor locks a b
  wait_on : {b c : ℕ} → WaitsFor locks a b → Waits locks b c → WaitsFor locks a c

module _ (locks : List (ℕ × LockEntry)) where
  Edge-Waits : (a b : ℕ) → Edge (waits_for_graph locks []) a b ↔ Waits locks a b
  unfolding lookup
  Edge-Waits a b =
      let both = neighbors-waits_for_graph locks a b [] in
      (λ m. ⊎_elim (λ n. absurd (Memᴰ.not-nil n)) (λ w. w) (both.0 m), λ w. both.1 (inr w))

  Walk-WaitsFor : {a b : ℕ} → Walk (waits_for_graph locks []) a b → WaitsFor locks a b
  Walk-WaitsFor {a} (edge {b} e) = wait ((Edge-Waits a b).0 e)
  Walk-WaitsFor (extend {b} {c} p e) = wait_on (Walk-WaitsFor p) ((Edge-Waits b c).0 e)

  WaitsFor-Walk : {a b : ℕ} → WaitsFor locks a b → Walk (waits_for_graph locks []) a b
  WaitsFor-Walk {a} (wait {b} w) = edge ((Edge-Waits a b).1 w)
  WaitsFor-Walk (wait_on {b} {c} p w) = extend (WaitsFor-Walk p) ((Edge-Waits b c).1 w)

  -- What the search says of the waits.
  abbrev Verdict : (ℕ → Bool) → Detection → Type 0
  Verdict rehashes r =
      (r ≡ answered true) × ((txn : ℕ) × WaitsFor locks txn txn)
      ⊎ (r ≡ answered false) × ((txn : ℕ) → ¬ WaitsFor locks txn txn)
      ⊎ (r ≡ invalid_iterator)
        × ((txn : ℕ) × (rehashes txn ≡ true) × ((b : ℕ) → ¬ Waits locks txn b))

  Ended-Verdict :
      (rehashes : ℕ → Bool) (r : Detection)
      → Ended
          (waits_for_graph locks [])
          (rehashed rehashes (waits_for_graph locks []))
          (keys (waits_for_graph locks []))
          []
          r
      → Verdict rehashes r
  Ended-Verdict rehashes (answered true) (txn, p) = inl (refl, (txn, Walk-WaitsFor p))
  Ended-Verdict rehashes (answered false) (color, kept, black) = inr (
      inl (
        refl,
        λ txn w.
            let graph = waits_for_graph locks [] in
            let p = WaitsFor-Walk w in
            let (n, e, _) = Edge-first graph p in
            Safe-acyclic graph txn (kept.blacks txn (black txn (keys-neighbors graph txn n e))) p,
      ))
  Ended-Verdict rehashes invalid_iterator (color, moved) =
      let graph = waits_for_graph locks [] in
      let (n, grows, new) = rehashed-key rehashes graph color moved in
      let no_list : neighbors graph n ≡ [] = ground arith in
      inr (
        inr (
          refl,
          (n, grows, λ b w. Memᴰ.not-nil (subst (λ ns. Memᴰ b ns) no_list ((Edge-Waits n b).1 w))),
        ))
  Ended-Verdict rehashes locked_twice p = absurd p
  Ended-Verdict rehashes no_fuel p = absurd p

-- `DetectDeadlock` of a thread that does not hold `row_mutex_` answers true where some transaction
-- waits for itself, over one or more waits for the holder of a row, and false where none does, or the
-- loop over the graph goes on with an invalid iterator, and then the map rehashed for a transaction
-- that waits for nobody. Of a thread that holds `row_mutex_`, which is each call that `LockRow` makes,
-- it locks the mutex twice.
pub detect_deadlock-WaitsFor :
    (rehashes : ℕ → Bool) (m : LockManager)
    → ((detect_deadlock false rehashes m ≡ answered true)
          × ((txn : ℕ) × WaitsFor m.row_locks txn txn)
        ⊎ (detect_deadlock false rehashes m ≡ answered false)
          × ((txn : ℕ) → ¬ WaitsFor m.row_locks txn txn)
        ⊎ (detect_deadlock false rehashes m ≡ invalid_iterator)
          × ((txn : ℕ) × (rehashes txn ≡ true) × ((b : ℕ) → ¬ Waits m.row_locks txn b)))
      × (detect_deadlock true rehashes m ≡ locked_twice)
unfolding detect_deadlock
detect_deadlock-WaitsFor rehashes m =
    let graph = waits_for_graph m.row_locks [] in
    let moved = rehashed rehashes graph in
    (
      Ended-Verdict m.row_locks rehashes
          (search_from moved (dfs graph (length (nodes graph))) graph [])
          (search_from-cycle graph moved),
      refl,
    )
