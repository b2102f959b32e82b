-- ===== src/Sql/Locks/Deadlock/Edges.antt =====
-- Who waits for whom among the row locks of goods_db/src/sql/lock_manager.cpp, and the graph that
-- `DetectDeadlock` builds of it.
use mathlib.Core.List.{Memᴰ}
use mathlib.Core.List.Memᴰ
use mathlib.Core.Logic.{⊎_elim}
use goods_db.Prelude.{
  ℕ, ◌≡◌, refl, sym, ap, ◌≢◌, ◌↔◌, ◌⊎◌, inl, inr, List, [], ◌∷◌, ◌++◌, arith, ◌==◌, if◌then◌else◌,
  Bool-cases,
}
use goods_db.Prelude.Assoc.{lookup, lookup-put, put}
use goods_db.Sql.Locks.{LockEntry}
use goods_db.Sql.Locks.Deadlock.{
  Graph, neighbors, wait_for, wait_for_entry, waits_for_graph, keys, nodes,
}

-- The first transaction waits for a row that the second one holds.
pub data Waits (locks : List (ℕ × LockEntry)) (a b : ℕ) : Type 0 where
  waits :
      (rid : ℕ) (e : LockEntry)
      → Memᴰ (rid, e) locks
      → Memᴰ a e.waiting_txns
      → e.txn_id ≡ b
      → e.txn_id ≢ 0
      → Waits locks a b

neighbors-put :
    (k a : ℕ) (ns : List ℕ) (graph : Graph)
    → neighbors (put k ns graph) a ≡ (if k == a then ns else neighbors graph a)
neighbors-put k a ns graph = ground (arith, lookup-put k a ns graph)

Memᴰ-last : (a x : ℕ) (xs : List ℕ) → Memᴰ a (xs ++ x ∷ []) ↔ (Memᴰ a xs ⊎ (a ≡ x))
Memᴰ-last a x xs = (
  λ m. ⊎_elim inl (λ last. inr (Memᴰ.eq_of_singleton last)) (Memᴰ.append_cases xs m),
  ⊎_elim (Memᴰ.append_left _) (λ e. Memᴰ.append_right xs (Memᴰ.head e)),
)

Memᴰ-cons : (a x : ℕ) (xs : List ℕ) → Memᴰ a (x ∷ xs) ↔ ((a ≡ x) ⊎ Memᴰ a xs)
Memᴰ-cons a x xs = (Memᴰ.cases_cons, ⊎_elim Memᴰ.head Memᴰ.tail)

neighbors-wait_for :
    (waiters : List ℕ) (holder a b : ℕ) (graph : Graph)
    → Memᴰ b (neighbors (wait_for waiters holder graph) a)
      ↔ (Memᴰ b (neighbors graph a) ⊎ Memᴰ a waiters × (b ≡ holder))
unfolding wait_for
neighbors-wait_for [] holder a b graph = (inl, ⊎_elim (λ m. m) (λ p. absurd (Memᴰ.not-nil p.0)))
neighbors-wait_for (w ∷ ws) holder a b graph =
    let graph' = put w (neighbors graph w ++ holder ∷ []) graph in
    let at_a = neighbors-put w a (neighbors graph w ++ holder ∷ []) graph in
    let more = neighbors-wait_for ws holder a b graph' in
    elim (Bool-cases (w == a)) [
      | inl same ↦
          let k : w ≡ a = ground arith in
          let here : neighbors graph' a ≡ neighbors graph a ++ holder ∷ [] =
            rw (at_a, same, k) refl in
          ground (
            arith,
            subst_mem b here,
            more,
            Memᴰ-last b holder (neighbors graph a),
            Memᴰ-cons a w ws,
          )
      | inr apart ↦
          let here : neighbors graph' a ≡ neighbors graph a = rw (at_a, apart) refl in
          ground (arith, subst_mem b here, more, Memᴰ-cons a w ws)
    ]
  where
    subst_mem : (b : ℕ) {xs ys : List ℕ} → xs ≡ ys → Memᴰ b xs ↔ Memᴰ b ys
    subst_mem b e = (λ m. rw (sym e) m, λ m. rw e m)

Waits-cons :
    (rid a b : ℕ) (e : LockEntry) (locks : List (ℕ × LockEntry))
    → Waits ((rid, e) ∷ locks) a b
      ↔ (Waits locks a b ⊎ Memᴰ a e.waiting_txns × (b ≡ e.txn_id) × (e.txn_id ≢ 0))
Waits-cons rid a b e locks = (split, ⊎_elim later here)
  where
    split :
        Waits ((rid, e) ∷ locks) a b
        → Waits locks a b ⊎ Memᴰ a e.waiting_txns × (b ≡ e.txn_id) × (e.txn_id ≢ 0)
    split (waits r e' m w h nz) = elim (Memᴰ.cases_cons m) [
      | inl first ↦
          let k : e' ≡ e = ap (λ (p : ℕ × LockEntry). p.1) first in
          inr (rw (sym k) w, rw (sym k) (sym h), rw (sym k) nz)
      | inr rest ↦ inl (waits r e' rest w h nz)
    ]

    later : Waits locks a b → Waits ((rid, e) ∷ locks) a b
    later (waits r e' m w h nz) = waits r e' (Memᴰ.tail m) w h nz

    here : Memᴰ a e.waiting_txns × (b ≡ e.txn_id) × (e.txn_id ≢ 0) → Waits ((rid, e) ∷ locks) a b
    here (w, h, nz) = waits rid e (Memᴰ.head refl) w (sym h) nz

neighbors-wait_for_entry :
    (e : LockEntry) (a b : ℕ) (graph : Graph)
    → Memᴰ b (neighbors (wait_for_entry e graph) a)
      ↔ (Memᴰ b (neighbors graph a) ⊎ Memᴰ a e.waiting_txns × (b ≡ e.txn_id) × (e.txn_id ≢ 0))
unfolding wait_for_entry
neighbors-wait_for_entry e a b graph =
    ground (arith, neighbors-wait_for e.waiting_txns e.txn_id a b graph)

-- The graph has the edges that it had, and one from each waiter to the holder that it waits for.
pub neighbors-waits_for_graph :
    (locks : List (ℕ × LockEntry)) (a b : ℕ) (graph : Graph)
    → Memᴰ b (neighbors (waits_for_graph locks graph) a)
      ↔ (Memᴰ b (neighbors graph a) ⊎ Waits locks a b)
unfolding waits_for_graph
neighbors-waits_for_graph [] a b graph = (inl, ⊎_elim (λ m. m) nobody)
  where
    nobody : Waits [] a b → Memᴰ b (neighbors graph a)
    nobody (waits r e m w h nz) = absurd (Memᴰ.not-nil m)
neighbors-waits_for_graph ((rid, e) ∷ locks) a b graph =
    let rest = neighbors-waits_for_graph locks a b (wait_for_entry e graph) in
    let first = neighbors-wait_for_entry e a b graph in
    let split = Waits-cons rid a b e locks in
    (
      λ m.
          ⊎_elim (λ n. ⊎_elim inl (λ w. inr (split.1 (inr w))) (first.0 n))
            (λ w. inr (split.1 (inl w))) (rest.0 m),
      ⊎_elim (λ n. rest.1 (inl (first.1 (inl n))))
          (λ w. ⊎_elim (λ l. rest.1 (inr l)) (λ h. rest.1 (inl (first.1 (inr h)))) (split.0 w)),
    )

neighbors-cons :
    (k a : ℕ) (ns : List ℕ) (graph : Graph)
    → neighbors ((k, ns) ∷ graph) a ≡ (if k == a then ns else neighbors graph a)
unfolding lookup
neighbors-cons k a ns graph = ground arith

-- A node with an edge is a key of the graph, and both ends of an edge are among its nodes.
pub keys-neighbors : (graph : Graph) (a b : ℕ) → Memᴰ b (neighbors graph a) → Memᴰ a (keys graph)
unfolding lookup
keys-neighbors [] a b m = absurd (Memᴰ.not-nil m)
keys-neighbors ((k, ns) ∷ graph) a b m = elim (Bool-cases (k == a)) [
  | inl same ↦ Memᴰ.head (ground arith)
  | inr apart ↦ Memᴰ.tail (keys-neighbors graph a b (rw (neighbors-cons k a ns graph, apart) at m))
]

pub nodes-keys : (graph : Graph) (a : ℕ) → Memᴰ a (keys graph) → Memᴰ a (nodes graph)
unfolding nodes
nodes-keys [] a m = absurd (Memᴰ.not-nil m)
nodes-keys ((k, ns) ∷ graph) a m = elim (Memᴰ.cases_cons m) [
  | inl same ↦ Memᴰ.head same
  | inr later ↦ Memᴰ.tail (Memᴰ.append_right ns (nodes-keys graph a later))
]

pub nodes-neighbors : (graph : Graph) (a b : ℕ) → Memᴰ b (neighbors graph a) → Memᴰ b (nodes graph)
unfolding nodes lookup
nodes-neighbors [] a b m = absurd (Memᴰ.not-nil m)
nodes-neighbors ((k, ns) ∷ graph) a b m = elim (Bool-cases (k == a)) [
  | inl same ↦
      Memᴰ.tail (Memᴰ.append_left (nodes graph) (rw (neighbors-cons k a ns graph, same) at m))
  | inr apart ↦ Memᴰ.tail (
      Memᴰ.append_right ns
        (nodes-neighbors graph a b (rw (neighbors-cons k a ns graph, apart) at m)))
]
