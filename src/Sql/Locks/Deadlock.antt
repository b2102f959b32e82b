-- ===== src/Sql/Locks/Deadlock.antt =====
-- `DetectDeadlock` of goods_db/src/sql/lock_manager.cpp: the graph of who waits for whom, and the
-- search for a cycle in it. Whether `std::unordered_map` rehashes when a key is added is an argument.
use goods_db.Prelude.{
  ℕ, zero, suc, Bool, true, false, List, [], ◌∷◌, ◌++◌, Option, none, some, ◌==◌, if◌then◌else◌,
  length,
}
use goods_db.Prelude.Assoc.{lookup, put}
use goods_db.Sql.Locks.{LockEntry, LockManager}
pub mod Edges
pub mod Whites
pub mod Search
pub mod Loop
pub mod Cycles
pub mod Tests

abbrev pub Graph : Type 0
Graph = List (ℕ × List ℕ)

-- `graph[node]`. A node that this adds to the map has an empty list, which reads like no entry; what
-- the addition does to the loop over the map is in `proceed`.
abbrev pub neighbors : Graph → ℕ → List ℕ
neighbors graph node = elim (lookup node graph) [ none ↦ [] | some found ↦ found ]

unfoldable pub wait_for : List ℕ → ℕ → Graph → Graph
wait_for [] holder graph = graph
wait_for (waiter ∷ waiters) holder graph =
    wait_for waiters holder (put waiter (neighbors graph waiter ++ holder ∷ []) graph)

-- The row locks of the transaction 0 hold nobody up.
unfoldable pub wait_for_entry : LockEntry → Graph → Graph
wait_for_entry e graph = if e.txn_id == 0 then graph else wait_for e.waiting_txns e.txn_id graph

unfoldable pub waits_for_graph : List (ℕ × LockEntry) → Graph → Graph
waits_for_graph [] graph = graph
waits_for_graph ((rid, e) ∷ locks) graph = waits_for_graph locks (wait_for_entry e graph)

-- The colours of the nodes: 0 or absent is white, 1 is gray, 2 is black.
abbrev pub Colors : Type 0
Colors = List (ℕ × ℕ)

abbrev pub color_of : Colors → ℕ → ℕ
color_of color node = elim (lookup node color) [ none ↦ 0 | some c ↦ c ]

pub data Answer : Type 0 where
  cycle : Answer
  clear : Colors → Answer
  out_of_fuel : Answer

-- A cycle that a call finds ends the loop.
unfoldable pub unless_cycle : Answer → (Colors → Answer) → Answer
unless_cycle cycle rest = cycle
unless_cycle (clear color) rest = rest color
unless_cycle out_of_fuel rest = out_of_fuel

-- The loop over the neighbours of a node; `dfs` is the call of the recursive closure.
unfoldable pub dfs_each : (ℕ → Colors → Answer) → List ℕ → Colors → Answer
dfs_each dfs [] color = clear color
dfs_each dfs (n ∷ ns) color = elim (color_of color n) [
  | zero ↦ unless_cycle (dfs n color) (dfs_each dfs ns)
  | suc c ↦ elim c [ zero ↦ cycle | suc _ ↦ dfs_each dfs ns color ]
]

unfoldable pub blacken : ℕ → Answer → Answer
blacken node cycle = cycle
blacken node (clear color) = clear (put node 2 color)
blacken node out_of_fuel = out_of_fuel

unfoldable pub dfs : Graph → ℕ → ℕ → Colors → Answer
dfs graph zero node color = out_of_fuel
dfs graph (suc fuel) node color =
    blacken node (dfs_each (dfs graph fuel) (neighbors graph node) (put node 1 color))

-- What a call comes to. `locked_twice` is a thread that locks `row_mutex_` while it holds it;
-- `invalid_iterator` is the loop over the map with an iterator that a rehash has made invalid, whose
-- behaviour is undefined.
pub data Detection : Type 0 where
  answered : Bool → Detection
  locked_twice : Detection
  invalid_iterator : Detection
  no_fuel : Detection

-- Whether `graph[node]` has added a key on which the map rehashed: each node that has a colour was
-- looked up. A rehash leaves the lists in the map where they are, so that `dfs` goes on with them.
unfoldable pub rehashed : (ℕ → Bool) → Graph → Colors → Bool
rehashed rehashes graph [] = false
rehashed rehashes graph ((node, _) ∷ color) =
    let later = rehashed rehashes graph color in
    elim (lookup node graph) [ none ↦ if rehashes node then true else later | some _ ↦ later ]

-- The loop over the map goes on after a call of `dfs` that found no cycle.
unfoldable pub proceed : (Colors → Bool) → Answer → (Colors → Detection) → Detection
proceed moved cycle rest = answered true
proceed moved (clear color) rest = if moved color then invalid_iterator else rest color
proceed moved out_of_fuel rest = no_fuel

-- The loop over the nodes that wait. A key that was added without a rehash is black by then, and is
-- skipped, whether the loop comes by it or not.
unfoldable pub search_from : (Colors → Bool) → (ℕ → Colors → Answer) → Graph → Colors → Detection
search_from moved dfs [] color = answered false
search_from moved dfs ((node, _) ∷ graph) color = elim (color_of color node) [
  | zero ↦ proceed moved (dfs node color) (search_from moved dfs graph)
  | suc _ ↦ search_from moved dfs graph color
]

abbrev pub keys : Graph → List ℕ
keys [] = []
keys ((node, _) ∷ graph) = node ∷ keys graph

-- Every node, once for each edge that it starts or ends.
unfoldable pub nodes : Graph → List ℕ
nodes [] = []
nodes ((node, ns) ∷ graph) = (node ∷ ns) ++ nodes graph

-- `held`: the thread holds `row_mutex_` already, as `LockRow` does when it calls `WouldDeadlock`.
unfoldable pub detect_deadlock : Bool → (ℕ → Bool) → LockManager → Detection
detect_deadlock held rehashes m =
    let graph = waits_for_graph m.row_locks [] in
    let found = search_from (rehashed rehashes graph) (dfs graph (length (nodes graph))) graph [] in
    if held then locked_twice else found
