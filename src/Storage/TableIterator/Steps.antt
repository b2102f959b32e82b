-- ===== src/Storage/TableIterator/Steps.antt =====
-- The loops of `AdvanceToNextValid` of goods_db/src/storage/table/table_iterator.cpp come to
-- the next row.
use goods_db.Prelude.{
  ℕ, zero, suc, ◌+◌, ◌-◌, ◌≤◌, ◌<◌, ◌≡◌, ◌≢◌, refl, false, List, [], ◌∷◌, ◌++◌, Option, none, some,
  arith, ◌==◌, length, Option-cases, inl, inr, ap, sym, ◌∙◌, subst,
}
use goods_db.Prelude.Bytes.{Bytes}
use goods_db.Disk.{id_limit, invalid_page_id}
use goods_db.Disk.Store.{Store}
use goods_db.Buffer.Replacer.{Replacer}
use goods_db.Buffer.Pool.{Pool, fetch_page}
use goods_db.Buffer.Pool.Content.{content}
use goods_db.Storage.TablePage.{get_slot_count, get_next_page_id}
use goods_db.Storage.TableHeap.Chain.{Chain}
use goods_db.Storage.TableIterator.{
  Row, first_live, TableIterator, leave_page, hold, give_up, advance_pages, advance_from,
  advance_to_next_valid,
}
use goods_db.Storage.TableIterator.Slots.{
  row_at, slots_behind, slots, first_live-none, first_live-some,
}
use goods_db.Storage.TableIterator.Scan.{
  Cut, Scans, On, Position, Between, advance_end, advance_refused, advance_here, advance_on,
  leave_page-Between, hold-FetchedPage, give_up-Settled, bytes_of,
}
use goods_db.Buffer.Pool.Refusal.{fetch_page_refused}

module _ {R : Replacer} {D : Store} where
  -- The loop over the pages comes to the next row, or to the end.
  pub advance_pages-Position :
      (fuel top : ℕ) (s : Pool R D) (it : TableIterator R D) (c : ℕ) (l : List ℕ)
      (Q : Pool R D → List Row → Type 0)
      → Between s it
      → it.current_page_id ≡ c
      → Chain s c l
      → length l < fuel
      → fuel ≤ top
      → ((z : Pool R D) (rest : List Row) → Scans s z l rest → Q z rest)
      → Position top s Q (advance_pages R D fuel it)
  advance_pages-Position zero top s it c l Q b e chain lt le q = absurd (omega (arith, lt))
  advance_pages-Position (suc fuel) top s it c [] Q b e chain lt le q =
      subst (Position top s Q) (sym (advance_end fuel it (e ∙ chain) b.empty))
        (inl (e ∙ chain, b.pool, q it.pool [] refl))
  advance_pages-Position (suc fuel) top s it c (p ∷ l) Q b e
        (here, low, real, numbered, (m, held, valid, behind)) lt le q =
      let at : it.current_page_id ≡ p = e ∙ here in
      let apart : (it.current_page_id == invalid_page_id) ≡ false = ground (arith, at, real) in
      let low' : it.current_page_id < id_limit = subst (λ x. x < id_limit) (sym at) low in
      let held' : content s it.current_page_id ≡ some m =
        subst (λ x. content s x ≡ some m) (sym at) held in
      elim (Option-cases (fetch_page R D it.pool it.current_page_id).1) [
        | inl missed ↦ subst (Position top s Q) (sym (advance_refused fuel it apart missed)) (
            inl (
              (unfold give_up in refl),
              give_up-Settled s it b.pool low',
              q (give_up R D it).pool [] (inl (refl, cut at missed low' held')),
            ))
        | inr (f, found) ↦
            let w = hold-FetchedPage s it f m b.pool low' held' found in
            let x = bytes_of fuel it apart f found in
            elim (Option-cases (first_live x (get_slot_count x) 0)) [
              | inr (i, live) ↦
                  let live' : first_live m (get_slot_count m) 0 ≡ some i =
                    subst (λ y. first_live y (get_slot_count y) 0 ≡ some i) w.bytes live in
                  let (below, rows) =
                    first_live-some p m (get_slot_count m) 0 i (get_slot_count m) (omega arith)
                      live' in
                  subst (Position top s Q) (sym (advance_here fuel it apart f found i live)) (
                    unfold hold in
                    inr (
                      f,
                      m,
                      i,
                      l,
                      record {
                        pool = w.pool;
                        real = λ k. real (sym at ∙ k);
                        held = refl;
                        at = w.at;
                        bytes = w.bytes;
                        slot = refl;
                        below = below;
                        behind = behind;
                        few = omega (arith, lt, le);
                      },
                      λ z rest sc.
                          subst (Q z)
                            (ap (λ r. r ++ rest) rows
                              ∙ ap (λ k. row_at k m i ∷ slots_behind k m i ++ rest) (sym at))
                            (q z (slots p m ++ rest) (inr (m, rest, held, refl, sc))),
                    ))
              | inl dead ↦
                  let dead' : first_live m (get_slot_count m) 0 ≡ none =
                    subst (λ y. first_live y (get_slot_count y) 0 ≡ none) w.bytes dead in
                  let no_rows : slots p m ≡ [] = first_live-none p m (get_slot_count m) 0 dead' in
                  let (left, moved) =
                    leave_page-Between s (hold R D it f) f (get_next_page_id x) w.pool
                      (unfold hold in refl) in
                  subst (Position top s Q) (sym (advance_on fuel it apart f found dead)) (
                    advance_pages-Position fuel top s
                      (leave_page R D (hold R D it f) (get_next_page_id x)) (get_next_page_id m) l Q
                      left (moved ∙ ap get_next_page_id w.bytes) behind (omega (arith, lt))
                      (omega (arith, le))
                      (λ z rest sc.
                        q z rest (inr (m, rest, held, sym (ap (λ r. r ++ rest) no_rows), sc))))
            ]
      ]
    where
      cut :
          it.current_page_id ≡ p
          → (fetch_page R D it.pool it.current_page_id).1 ≡ none
          → it.current_page_id < id_limit
          → content s it.current_page_id ≡ some m
          → Cut s p (give_up R D it).pool
      cut at missed low' held' = record {
        before = it.pool;
        settled = b.pool;
        refused = subst (λ x. (fetch_page R D it.pool x).1 ≡ none) at missed;
        after =
            subst (λ x. (fetch_page R D it.pool x).0 ≡ (give_up R D it).pool) at
              (unfold give_up in refl);
        full =
            unfold give_up in
            fetch_page_refused it.pool it.current_page_id m b.pool.valid b.pool.coherent low'
              (λ k. real (sym at ∙ k)) (b.pool.same it.current_page_id m low' held') missed;
      }

  advance_from_here :
      (fuel : ℕ) (it : TableIterator R D) (f j : ℕ)
      → first_live
          (it.pool.pages f).bytes
          (get_slot_count (it.pool.pages f).bytes - it.next_slot)
          it.next_slot
        ≡ some j
      → advance_from R D fuel it f ≡ record it { next_slot = j + 1 }
  unfolding advance_from
  advance_from_here fuel it f j e = rw (e, advance_from) refl

  advance_from_on :
      (fuel : ℕ) (it : TableIterator R D) (f : ℕ)
      → first_live
          (it.pool.pages f).bytes
          (get_slot_count (it.pool.pages f).bytes - it.next_slot)
          it.next_slot
        ≡ none
      → advance_from R D fuel it f
        ≡ advance_pages R D fuel (leave_page R D it (get_next_page_id (it.pool.pages f).bytes))
  unfolding advance_from
  advance_from_on fuel it f e = rw (e, advance_from) refl

  advance_held :
      (fuel : ℕ) (it : TableIterator R D) (f : ℕ)
      → it.current_page_id ≢ invalid_page_id
      → it.current_page ≡ some f
      → advance_to_next_valid R D fuel it ≡ advance_from R D fuel it f
  unfolding advance_to_next_valid
  advance_held fuel it f real held = ground arith

  -- From a row to the next one.
  pub advance_to_next_valid-Position :
      (top : ℕ) (s : Pool R D) (it : TableIterator R D) (f : ℕ) (m : Bytes) (i : ℕ) (l : List ℕ)
      (Q : Pool R D → List Row → Type 0)
      → On top s it f m i l
      → ((z : Pool R D) (rest : List Row)
          → Scans s z l rest
          → Q z (slots_behind it.current_page_id m i ++ rest))
      → Position top s Q (advance_to_next_valid R D top it)
  advance_to_next_valid-Position top s it f m i l Q o q =
      let p = it.current_page_id in
      let x = (it.pool.pages f).bytes in
      let c = get_slot_count m in
      let below = o.below in
      let whole : (i + 1) + (c - (i + 1)) ≡ c = omega (arith, below) in
      let turn : (y : Option ℕ)
          → first_live x (get_slot_count x - it.next_slot) it.next_slot ≡ y
          → first_live m (c - (i + 1)) (i + 1) ≡ y =
        λ y k.
          subst (λ b. first_live b (get_slot_count b - (i + 1)) (i + 1) ≡ y) o.bytes
            (subst (λ n. first_live x (get_slot_count x - n) n ≡ y) o.slot k) in
      subst (Position top s Q) (sym (advance_held top it f o.real o.held))
        (elim (Option-cases (first_live x (get_slot_count x - it.next_slot) it.next_slot)) [
          | inr (j, live) ↦
              let (below', rows) =
                first_live-some p m (c - (i + 1)) (i + 1) j c whole (turn (some j) live) in
              subst (Position top s Q) (sym (advance_from_here top it f j live)) (
                inr (
                  f,
                  m,
                  j,
                  l,
                  record {
                    pool = o.pool;
                    real = o.real;
                    held = o.held;
                    at = o.at;
                    bytes = o.bytes;
                    slot = refl;
                    below = below';
                    behind = o.behind;
                    few = o.few;
                  },
                  λ z rest sc. subst (Q z) (ap (λ r. r ++ rest) rows) (q z rest sc),
                ))
          | inl dead ↦
              let no_rows : slots_behind p m i ≡ [] =
                first_live-none p m (c - (i + 1)) (i + 1) (turn none dead) in
              let (left, moved) = leave_page-Between s it f (get_next_page_id x) o.pool o.held in
              subst (Position top s Q) (sym (advance_from_on top it f dead)) (
                advance_pages-Position top top s (leave_page R D it (get_next_page_id x))
                  (get_next_page_id m) l Q left (moved ∙ ap get_next_page_id o.bytes) o.behind o.few
                  (omega arith)
                  (λ z rest sc. subst (Q z) (ap (λ r. r ++ rest) no_rows) (q z rest sc)))
        ])
