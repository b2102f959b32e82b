-- ===== src/Storage/TableHeap/Insert.antt =====
-- What `InsertTuple` of goods_db/src/storage/table/table_heap.cpp does to the rows and to the
-- chain.
use goods_db.Prelude.{
  ℕ, ◌<◌, ◌≡◌, ◌≢◌, refl, true, false, List, [], ◌∷◌, ◌++◌, Option, some, none, arith, ◌==◌, ◌||◌,
  ltb, length, Bool-cases, Option-cases, ◌⊎◌, inl, inr, ap, sym, ◌∙◌, subst,
}
use goods_db.Prelude.Members.{member}
use goods_db.Disk.{id_limit, invalid_page_id, get_page_no}
use goods_db.Disk.Store.{Store}
use goods_db.Buffer.Replacer.{Replacer}
use goods_db.Storage.TableHeap.NewPage.{with_new_page}
use goods_db.Buffer.Pool.{fetch_page, Pool, new_page}
use goods_db.Buffer.Pool.Valid.{IsValid}
use goods_db.Buffer.Pool.Content.{content, IsCoherent}
use goods_db.Buffer.Pool.NewPage.{IsSpared}
use goods_db.Storage.TablePage.{get_next_page_id, set_next_page_id, max_tuple_size}
use goods_db.Storage.TablePage
use goods_db.Storage.TableHeap.{
  Rid, Heap, Outcome, placed, failed, behind, out_of_fuel, insert_from, after_search, insert_tuple,
  append_page,
}
use goods_db.Storage.TableHeap.Chain.{
  row, row-some, row-none, Chain, Chain-Same, Chain-Grown, Grown, Same, last_of,
}
use goods_db.Storage.TableHeap.Search.{Ends, insert_from-Searched}
use goods_db.Storage.TableHeap.Fill.{append_page-Appended}
use goods_db.Storage.TableHeap.Append.{Chain-last, Appended-Chain, Appended-row}

-- What follows the loop, by how it ended.
after_placed :
    {R : Replacer} {D : Store} (h : Heap) (tuple : List ℕ) (r : Pool R D × Outcome) (rid : Rid)
    → r.1 ≡ placed rid
    → after_search R D h tuple r ≡ (r.0, some rid)
unfolding after_search
after_placed {R} {D} h tuple r rid e = ground arith

after_behind :
    {R : Replacer} {D : Store} (h : Heap) (tuple : List ℕ) (r : Pool R D × Outcome) (b : ℕ)
    → r.1 ≡ behind b
    → after_search R D h tuple r ≡ append_page R D h tuple b r.0
unfolding after_search
after_behind {R} {D} h tuple r b e = ground arith

-- The last page of a chain is one of it.
last_of-member : (p q : ℕ) (l : List ℕ) → member p (q ∷ l) ≡ false → p ≢ last_of l q
last_of-member p q [] out e = ground (arith, out)
last_of-member p q (k ∷ l) out e = last_of-member p k l (ground (arith, out)) e

module _ {R : Replacer} {D : Store} where
  insert_tuple_lem :
      (fuel : ℕ) (h : Heap) (tuple : List ℕ) (s : Pool R D)
      → (length tuple == 0 || ltb max_tuple_size (length tuple)) ≡ false
      → insert_tuple R D fuel h tuple s
        ≡ after_search R D h tuple (insert_from R D fuel tuple h.first_page_id invalid_page_id s)
  unfolding insert_tuple
  insert_tuple_lem fuel h tuple s size = rw size refl

  Ends-placed :
      (tuple : List ℕ) (prev : ℕ) (s : Pool R D) (l : List ℕ) (r : Pool R D × Outcome) (rid : Rid)
      → Ends tuple prev s l r
      → r.1 ≡ placed rid
      → (row r.0 rid ≡ some tuple)
        × Grown s r.0 rid.page_id
        × (rid.page_id < id_limit)
        × (member rid.page_id l ≡ true)
  Ends-placed tuple prev s l (t, placed k) rid h e = ground arith
  Ends-placed tuple prev s l (t, failed) rid h e = absurd (cc e)
  Ends-placed tuple prev s l (t, behind k) rid h e = absurd (cc e)
  Ends-placed tuple prev s l (t, out_of_fuel) rid h e = absurd h

  Ends-behind :
      (tuple : List ℕ) (prev : ℕ) (s : Pool R D) (l : List ℕ) (r : Pool R D × Outcome) (b : ℕ)
      → Ends tuple prev s l r
      → r.1 ≡ behind b
      → Same s r.0 × (b ≡ last_of l prev)
  Ends-behind tuple prev s l (t, placed k) b h e = absurd (cc e)
  Ends-behind tuple prev s l (t, failed) b h e = absurd (cc e)
  Ends-behind tuple prev s l (t, behind k) b (same, last, full) e =
      let i : k ≡ b = ground (arith, e) in (same, sym i ∙ last)
  Ends-behind tuple prev s l (t, out_of_fuel) b h e = absurd h

  Same-row :
      (s t : Pool R D) (rid : Rid) (u : List ℕ)
      → Same s t
      → rid.page_id < id_limit
      → row s rid ≡ some u
      → row t rid ≡ some u
  Same-row s t rid u same low there = elim (Option-cases (content s rid.page_id)) [
    | inl out ↦ absurd (cc (row-none s rid out, there))
    | inr (b, held) ↦
        row-some t rid b (same rid.page_id b low held) ∙ sym (row-some s rid b held) ∙ there
  ]

  Grown-row :
      (s t : Pool R D) (p : ℕ) (rid : Rid) (u : List ℕ)
      → Grown s t p
      → rid.page_id < id_limit
      → row s rid ≡ some u
      → row t rid ≡ some u
  Grown-row s t p rid u g low there = elim (Option-cases (content s rid.page_id)) [
    | inl out ↦ absurd (cc (row-none s rid out, there))
    | inr (b, held) ↦
        let old : TablePage.get_tuple b rid.slot_id ≡ some u =
          sym (row-some s rid b held) ∙ there in
        elim (Bool-cases (p == rid.page_id)) [
          | inr other ↦
              row-some t rid b (g.others rid.page_id b low (λ e. ground (arith, other)) held) ∙ old
          | inl same ↦
              let i : p ≡ rid.page_id = ground arith in
              let (m, held', valid, link, kept) =
                g.page b (subst (λ x. content s x ≡ some b) (sym i) held) in
              row-some t rid m (subst (λ x. content t x ≡ some m) i held') ∙ kept rid.slot_id u old
        ]
  ]

  -- On a valid and coherent pool, where the pages of the heap are a chain of fewer than the fuel
  -- and the tuple has a permitted size: where the loop finds a page that takes the tuple,
  -- InsertTuple answers with a row id of the chain, under which the tuple is read; every other row
  -- reads as before, and the pool is valid and coherent with the same chain.
  pub row-insert_tuple :
      (fuel : ℕ) (h : Heap) (tuple : List ℕ) (s : Pool R D) (l : List ℕ) (rid other : Rid)
      (u : List ℕ)
      → IsValid s
      → IsCoherent s
      → Chain s h.first_page_id l
      → length l < fuel
      → (length tuple == 0 || ltb max_tuple_size (length tuple)) ≡ false
      → (insert_from R D fuel tuple h.first_page_id invalid_page_id s).1 ≡ placed rid
      → other.page_id < id_limit
      → row s other ≡ some u
      → let r = insert_tuple R D fuel h tuple s in
        (r.1 ≡ some rid)
        × (member rid.page_id l ≡ true)
        × (row r.0 rid ≡ some tuple)
        × (row r.0 other ≡ some u)
        × IsValid r.0
        × IsCoherent r.0
        × Chain r.0 h.first_page_id l
  row-insert_tuple fuel h tuple s l rid other u v c chain lt size e low there =
      let r = insert_from R D fuel tuple h.first_page_id invalid_page_id s in
      let w = insert_from-Searched fuel tuple h.first_page_id invalid_page_id s l v c chain lt in
      let (found, grown, low', inside) = Ends-placed tuple invalid_page_id s l r rid w.ends e in
      rw (insert_tuple_lem fuel h tuple s size, after_placed h tuple r rid e)
        (
          refl,
          inside,
          found,
          Grown-row s r.0 rid.page_id other u grown low there,
          w.valid,
          w.coherent,
          Chain-Grown s r.0 rid.page_id h.first_page_id l grown chain,
        )

  -- The other case, for a heap with pages: where the loop ends behind the last page `b` and the
  -- pool makes a page `p` that is not of the chain, in a frame `f`, the disk keeping the data pages
  -- meanwhile, InsertTuple succeeds with the first row of that page: the insertion into the new
  -- page does not fail. Under it the tuple is read, every row of another data page reads as
  -- before, the pool is valid and coherent, and the chain has the new page at its end, unless the
  -- last page could not be fetched beside the new one: then it is as it was.
  pub row-append_page :
      (fuel : ℕ) (h : Heap) (tuple : List ℕ) (s : Pool R D) (q : ℕ) (l : List ℕ) (b p f : ℕ)
      (other : Rid) (u : List ℕ)
      → IsValid s
      → IsCoherent s
      → h.first_page_id ≡ q
      → Chain s q (q ∷ l)
      → length (q ∷ l) < fuel
      → (length tuple == 0 || ltb max_tuple_size (length tuple)) ≡ false
      → (insert_from R D fuel tuple h.first_page_id invalid_page_id s).1 ≡ behind b
      → IsSpared (insert_from R D fuel tuple h.first_page_id invalid_page_id s).0 h.file_id
      → (new_page R D (insert_from R D fuel tuple h.first_page_id invalid_page_id s).0 h.file_id).1
        ≡ some (p, f)
      → member p (q ∷ l) ≡ false
      → other.page_id < id_limit
      → get_page_no other.page_id ≢ 0
      → p ≢ other.page_id
      → row s other ≡ some u
      → let r = insert_tuple R D fuel h tuple s in
        (r.1 ≡ some (record { page_id = p; slot_id = 0 }))
        × (row r.0 (record { page_id = p; slot_id = 0 }) ≡ some tuple)
        × (row r.0 other ≡ some u)
        × IsValid r.0
        × IsCoherent r.0
        × (Chain r.0 q (q ∷ l ++ p ∷ [])
            ⊎ (Chain r.0 q (q ∷ l)
                × ((fetch_page R D
                      (with_new_page h
                        (last_of l q)
                        p
                        f
                        (insert_from R D fuel tuple h.first_page_id invalid_page_id s).0)
                      (last_of l q)).1
                    ≡ none)))
  row-append_page fuel h tuple s q l b p f other u v c first chain lt size e spared made out low
        numbered ne there =
      let r = insert_from R D fuel tuple h.first_page_id invalid_page_id s in
      let w =
        insert_from-Searched fuel tuple h.first_page_id invalid_page_id s (q ∷ l) v c
          (subst (λ x. Chain s x (q ∷ l)) (sym first) chain) lt in
      let (same, last) = Ends-behind tuple invalid_page_id s (q ∷ l) r b w.ends e in
      let chain' = Chain-Same s r.0 q (q ∷ l) same chain in
      let (m, g, stop) = Chain-last r.0 q l chain' in
      let p_last : member p (q ∷ l) ≡ false → p ≢ last_of l q = last_of-member p q l in
      let (done, a) =
        append_page-Appended h tuple r.0 (last_of l q) p f w.valid w.coherent spared size g.low
          g.real g.numbered made (p_last out) in
      let (mp, held, valid, ends, inside) = a.page in
      let eq : insert_tuple R D fuel h tuple s ≡ append_page R D h tuple (last_of l q) r.0 =
        insert_tuple_lem fuel h tuple s size
        ∙ after_behind h tuple r b e
        ∙ ap (λ x. append_page R D h tuple x r.0) last in
      subst {A = Pool R D × Option Rid}
        (λ x.
          (x.1 ≡ some (record { page_id = p; slot_id = 0 }))
          × (row x.0 (record { page_id = p; slot_id = 0 }) ≡ some tuple)
          × (row x.0 other ≡ some u)
          × IsValid x.0
          × IsCoherent x.0
          × (Chain x.0 q (q ∷ l ++ p ∷ [])
              ⊎ (Chain x.0 q (q ∷ l)
                  × ((fetch_page R D (with_new_page h (last_of l q) p f r.0) (last_of l q)).1
                      ≡ none))))
        (sym eq)
        (
          done,
          row-some (append_page R D h tuple (last_of l q) r.0).0
                (record { page_id = p; slot_id = 0 }) mp held
              ∙ inside,
          Appended-row r.0 (with_new_page h (last_of l q) p f r.0)
              (append_page R D h tuple (last_of l q) r.0).0 (last_of l q) p tuple u other m g a low
              numbered ne (Same-row s r.0 other u same low there),
          a.valid,
          a.coherent,
          Appended-Chain r.0 (with_new_page h (last_of l q) p f r.0)
              (append_page R D h tuple (last_of l q) r.0).0 q p l tuple chain' out a,
        )
