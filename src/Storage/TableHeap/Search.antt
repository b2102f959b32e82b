-- ===== src/Storage/TableHeap/Search.antt =====
-- The loop of `InsertTuple` of goods_db/src/storage/table/table_heap.cpp over the chain of pages.
use goods_db.Prelude.{
  ℕ, zero, suc, ◌<◌, ◌≡◌, refl, true, false, List, [], ◌∷◌, Option, none, some, arith, ◌==◌, length,
  Bool-cases, Option-cases, inl, inr, ap, sym, ◌∙◌, subst,
}
use mathlib.Core.Option.{some-injective}
use goods_db.Prelude.Members.{member}
use goods_db.Prelude.Bytes.{Bytes}
use goods_db.Disk.{id_limit, invalid_page_id}
use goods_db.Disk.Store.{Store}
use goods_db.Buffer.Replacer.{Replacer}
use goods_db.Buffer.Pool.{Pool}
use goods_db.Buffer.Pool.Valid.{IsValid}
use goods_db.Buffer.Pool.Content.{content, IsCoherent}
use goods_db.Buffer.Pool.Visit.{visit, Visited, visit-Visited}
use goods_db.Storage.TablePage
use goods_db.Storage.TablePage.{get_next_page_id}
use goods_db.Storage.TableHeap.{
  Answer, slot, next, try_insert, Outcome, placed, failed, behind, out_of_fuel, insert_from,
}
use goods_db.Storage.TableHeap.Rows.{
  Tried, try_insert-Tried, try_insert_honest, Tried-slot, Tried-next,
}
use goods_db.Storage.TableHeap.Chain.{last_of, row, Chain, Same, Grown, Chain-Same}

module _ {R : Replacer} {D : Store} where
  -- Each of these pages answers to the tuple with the next page.
  abbrev pub NoRoom : Pool R D → List ℕ → List ℕ → Type 0
  NoRoom s tuple [] = Unit {0}
  NoRoom s tuple (p ∷ l) =
      ((m : Bytes) × (q : ℕ) × (content s p ≡ some m) × ((try_insert tuple m).2 ≡ next q))
      × NoRoom s tuple l

  NoRoom-Same :
      (s t : Pool R D) (tuple : List ℕ) (c : ℕ) (l : List ℕ)
      → Same s t
      → Chain s c l
      → NoRoom t tuple l
      → NoRoom s tuple l
  NoRoom-Same s t tuple c [] h chain none_left = tt
  NoRoom-Same s t tuple c (p ∷ l) h (here, low, real, numbered, (m, held, valid, rest))
        ((b, q, found, answer), more) =
      let same : b ≡ m = some-injective b m (sym found ∙ h p m low held) in
      (
        (m, q, held, subst (λ x. (try_insert tuple x).2 ≡ next q) same answer),
        NoRoom-Same s t tuple (get_next_page_id m) l h rest more,
      )

  -- How the loop ends on a chain, where the fuel is more than its pages.
  abbrev pub Ends : List ℕ → ℕ → Pool R D → List ℕ → Pool R D × Outcome → Type 0
  Ends tuple prev s l (t, placed rid) =
      (row t rid ≡ some tuple)
      × Grown s t rid.page_id
      × (rid.page_id < id_limit)
      × (member rid.page_id l ≡ true)
  Ends tuple prev s l (t, failed) = Same s t × (t.free_list ≡ [])
  Ends tuple prev s l (t, behind q) = Same s t × (q ≡ last_of l prev) × NoRoom s tuple l
  Ends tuple prev s l (t, out_of_fuel) = ⊥

  pub record Searched (tuple : List ℕ) (prev : ℕ) (s : Pool R D) (l : List ℕ)
      (r : Pool R D × Outcome) : Type 0 where
    pub valid : IsValid r.0
    pub coherent : IsCoherent r.0
    pub ends : Ends tuple prev s l r

  -- One round on page `p` of the chain.
  module _ (fuel : ℕ) (tuple : List ℕ) (p prev : ℕ) (s : Pool R D) where
    abbrev visited : Pool R D × Option Answer
    visited = visit R D s p (try_insert tuple)

    round_failed :
        (p == invalid_page_id) ≡ false
        → visited.1 ≡ none
        → insert_from R D (suc fuel) tuple p prev s ≡ (visited.0, failed)
    unfolding insert_from
    round_failed real e = rw (real, insert_from) (rw (e, insert_from) refl)

    round_slot :
        (k : ℕ)
        → (p == invalid_page_id) ≡ false
        → visited.1 ≡ some (slot k)
        → insert_from R D (suc fuel) tuple p prev s
          ≡ (visited.0, placed (record { page_id = p; slot_id = k }))
    unfolding insert_from
    round_slot k real e = rw (real, insert_from) (rw (e, insert_from) refl)

    round_next :
        (q : ℕ)
        → (p == invalid_page_id) ≡ false
        → visited.1 ≡ some (next q)
        → insert_from R D (suc fuel) tuple p prev s ≡ insert_from R D fuel tuple q p visited.0
    unfolding insert_from
    round_next q real e = rw (real, insert_from) (rw (e, insert_from) refl)

  round_end :
      (fuel : ℕ) (tuple : List ℕ) (current prev : ℕ) (s : Pool R D)
      → current ≡ invalid_page_id
      → insert_from R D (suc fuel) tuple current prev s ≡ (s, behind prev)
  unfolding insert_from
  round_end fuel tuple current prev s e = ground arith

  Ends-Same :
      (tuple : List ℕ) (p prev : ℕ) (s t : Pool R D) (l : List ℕ) (r : Pool R D × Outcome)
      → Same s t
      → ((m : Bytes) × (q : ℕ) × (content s p ≡ some m) × ((try_insert tuple m).2 ≡ next q))
      → (c : ℕ) → Chain s c l
      → Ends tuple p t l r
      → Ends tuple prev s (p ∷ l) r
  Ends-Same tuple p prev s t l (u, placed rid) h refusal c chain (there, g, low, inside) = (
    there,
    record {
      others = λ q c a ne held. g.others q c a ne (h q c a held);
      page = λ m held. g.page m (h rid.page_id m low held);
    },
    low,
    ground (arith, inside),
  )
  Ends-Same tuple p prev s t l (u, failed) h refusal c chain (e, full) =
      (λ q b a held. e q b a (h q b a held), full)
  Ends-Same tuple p prev s t l (u, behind k) h refusal c chain (e, last, more) = (
    λ q b a held. e q b a (h q b a held),
    last,
    (refusal, NoRoom-Same s t tuple c l h chain more),
  )
  Ends-Same tuple p prev s t l (u, out_of_fuel) h refusal c chain e = absurd e

  -- On a valid and coherent pool, where the pages from `current` on are a chain of fewer than the
  -- fuel, the loop ends before the fuel does, with a valid and coherent pool: on a page of the
  -- chain that has the tuple and keeps its rows and its link, or, with every page unchanged, on a
  -- page that is refused because no frame is free, or behind the last page, where no page has room
  -- for the tuple.
  pub insert_from-Searched :
      (fuel : ℕ) (tuple : List ℕ) (current prev : ℕ) (s : Pool R D) (l : List ℕ)
      → IsValid s
      → IsCoherent s
      → Chain s current l
      → length l < fuel
      → Searched tuple prev s l (insert_from R D fuel tuple current prev s)
  insert_from-Searched zero tuple current prev s l v c chain lt = absurd (omega (arith, lt))
  insert_from-Searched (suc fuel) tuple current prev s [] v c chain lt =
      subst (Searched tuple prev s []) (sym (round_end fuel tuple current prev s chain))
        (record { valid = v; coherent = c; ends = (λ q b a held. held, refl, tt) })
  insert_from-Searched (suc fuel) tuple current prev s (p ∷ l) v c
        (here, low, real, numbered, (m, held, valid, rest)) lt =
      subst (λ k. Searched tuple prev s (p ∷ l) (insert_from R D (suc fuel) tuple k prev s))
        (sym here)
        (elim (Option-cases (visited fuel tuple p prev s).1) [
          | inl e ↦
              subst (Searched tuple prev s (p ∷ l)) (sym (round_failed fuel tuple p prev s apart e))
                (record {
                  valid = w.valid;
                  coherent = w.coherent;
                  ends = (w.missed e, w.full e real m held);
                })
          | inr (a, e) ↦
              on_answer
                (λ q k.
                  insert_from-Searched fuel tuple q p (visit R D s p (try_insert tuple)).0 l w.valid
                    w.coherent k (omega (arith, lt)))
                a e
        ])
    where
      apart : (p == invalid_page_id) ≡ false
      apart = ground (arith, real)

      w : Visited s p (try_insert tuple) (visit R D s p (try_insert tuple))
      w = visit-Visited s p (try_insert tuple) v c low (λ b. try_insert_honest b tuple)

      tried : Tried m tuple (try_insert tuple m)
      tried = try_insert-Tried m tuple valid

      t : Pool R D
      t = (visit R D s p (try_insert tuple)).0

      same_page : (b : Bytes) → content s p ≡ some b → m ≡ b
      same_page b k = some-injective m b (sym held ∙ k)

      kept :
          (q : ℕ)
          → (visit R D s p (try_insert tuple)).1 ≡ some (next q)
          → Same s t × (q ≡ get_next_page_id m)
      kept q e =
          let (answer, after) = w.done (next q) m e held in
          let (unchanged, link) = Tried-next m tuple (try_insert tuple m) q tried answer in
          (
            λ x b a k. elim (Bool-cases (p == x)) [
              | inl same ↦
                  let i : p ≡ x = ground arith in
                  let found : content s p ≡ some b = subst (λ y. content s y ≡ some b) (sym i) k in
                  subst (λ y. content t y ≡ some b) i
                    (after ∙ ap some (unchanged ∙ same_page b found))
              | inr other ↦ w.others x b a (λ i. ground (arith, other)) k
            ],
            link,
          )

      on_answer :
          ((q : ℕ) → Chain t q l → Searched tuple p t l (insert_from R D fuel tuple q p t))
          → (a : Answer) → (visit R D s p (try_insert tuple)).1 ≡ some a
          → Searched tuple prev s (p ∷ l) (insert_from R D (suc fuel) tuple p prev s)
      on_answer again (slot k) e =
          let (answer, after) = w.done (slot k) m e held in
          let found = Tried-slot m tuple (try_insert tuple m) k tried answer in
          subst (Searched tuple prev s (p ∷ l)) (sym (round_slot fuel tuple p prev s k apart e))
            (record {
              valid = w.valid;
              coherent = w.coherent;
              ends = (
                ground (arith, after, found.there),
                record {
                  others = w.others;
                  page = λ b k'.
                      let i = same_page b k' in
                      (
                        (try_insert tuple m).0,
                        after,
                        found.valid,
                        found.chained ∙ ap get_next_page_id i,
                        λ j u h.
                            found.kept j u
                              (subst (λ y. TablePage.get_tuple y j ≡ some u) (sym i) h),
                      );
                },
                low,
                ground arith,
              );
            })
      on_answer again (next q) e =
          let (same, link) = kept q e in
          let chain : Chain t q l =
            subst (λ k. Chain t k l) (sym link) (Chain-Same s t (get_next_page_id m) l same rest) in
          let r = again q chain in
          subst (Searched tuple prev s (p ∷ l)) (sym (round_next fuel tuple p prev s q apart e))
            (record {
              valid = r.valid;
              coherent = r.coherent;
              ends =
                  Ends-Same tuple p prev s t l (insert_from R D fuel tuple q p t) same
                    (m, q, held, sym (w.done (next q) m e held).0) (get_next_page_id m) rest r.ends;
            })
