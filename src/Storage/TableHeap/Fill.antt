-- ===== src/Storage/TableHeap/Fill.antt =====
-- The first tuple of a new page, in `InsertTuple` of goods_db/src/storage/table/table_heap.cpp.
use goods_db.Prelude.{
  ℕ, ◌<◌, ◌≡◌, ◌≢◌, refl, true, false, List, Option, some, none, ◌==◌, ◌||◌, ltb, length, ◌⊎◌, inl,
  inr, ap, sym, ◌∙◌, subst,
}
use goods_db.Prelude.Bytes.{Bytes}
use goods_db.Disk.{id_limit, invalid_page_id, get_page_no}
use goods_db.Disk.Store.{Store}
use goods_db.Buffer.Replacer.{Replacer}
use goods_db.Buffer.Pool.{Pool, fetch_page, unpin_page, new_page}
use goods_db.Buffer.Pool.Valid.{IsValid}
use goods_db.Buffer.Pool.Content.{content, IsCoherent}
use goods_db.Buffer.Pool.Unpin.{unpin_page-IsValid, unpin_page-IsCoherent}
use goods_db.Buffer.Pool.Visit.{store, store-IsValid, store-content, store-IsCoherent_marked}
use goods_db.Buffer.Pool.NewPage.{IsSpared, SameBut, MadePage, new_page-MadePage}
use goods_db.Storage.TablePage.{
  init, get_next_page_id, set_next_page_id, set_prev_page_id, get_slot_count, place_tuple,
  max_tuple_size,
}
use goods_db.Storage.TablePage
use goods_db.Storage.TablePage.Valid
use goods_db.Storage.TablePage.Valid.{init-IsValid, init-get_slot_count}
use goods_db.Storage.TablePage.Links.{insert_tuple-empty}
use goods_db.Storage.TableHeap.{
  Rid, Heap, allocate_new_page, link_prev, fill_page, insert_into_new, append_page,
}
use goods_db.Storage.TableHeap.Rows.{insert_tuple-Placed}
use goods_db.Storage.TableHeap.NewPage.{
  with_new_page, Joined, allocated_page, stored-Ready, fetched-Held, link_prev-Joined,
}

module _ {R : Replacer} {D : Store} where
  -- The new page has the tuple in slot 0 and ends the chain.
  pub record Appended (s u : Pool R D) (prev p : ℕ) (tuple : List ℕ) (t : Pool R D) : Type 0 where
    pub valid : IsValid t
    pub coherent : IsCoherent t
    pub low : p < id_limit
    pub real : p ≢ invalid_page_id
    pub numbered : get_page_no p ≢ 0
    pub page :
        (m : Bytes) × (content t p ≡ some m)
        × TablePage.Valid.IsValid m
        × (get_next_page_id m ≡ invalid_page_id)
        × (TablePage.get_tuple m 0 ≡ some tuple)
    pub others :
        (q : ℕ) (c : Bytes)
        → q < id_limit
        → get_page_no q ≢ 0
        → p ≢ q
        → prev ≢ q
        → content s q ≡ some c
        → content t q ≡ some c
    pub last :
        (b : Bytes)
        → content s prev ≡ some b
        → (content t prev ≡ some (set_next_page_id b p))
          ⊎ ((content t prev ≡ some b) × ((fetch_page R D u prev).1 ≡ none))

  fill_page_lem :
      (tuple : List ℕ) (p f : ℕ) (s : Pool R D) (m : Bytes)
      → get_slot_count m ≡ 0
      → (length tuple == 0 || ltb max_tuple_size (length tuple)) ≡ false
      → fill_page R D tuple p f (s, m) ≡ (
        (unpin_page R D (store R D s f (place_tuple m tuple) true) p true).0,
        some (record { page_id = p; slot_id = 0 }),
      )
  unfolding fill_page
  fill_page_lem tuple p f s m e size = rw ((insert_tuple-empty m tuple e size).1, fill_page) refl

  fill_page-Appended :
      (tuple : List ℕ) (s n t : Pool R D) (prev p f : ℕ) (r : Pool R D × Bytes)
      → MadePage s p f n
      → (length tuple == 0 || ltb max_tuple_size (length tuple)) ≡ false
      → p ≢ prev
      → prev < id_limit
      → get_page_no prev ≢ 0
      → SameBut p s t
      → Joined t prev p f r
      → ((fill_page R D tuple p f r).1 ≡ some (record { page_id = p; slot_id = 0 }))
        × Appended s t prev p tuple (fill_page R D tuple p f r).0
  fill_page-Appended tuple s n t prev p f (u, m) made size ne low numbered same j =
      let eq = fill_page_lem tuple p f u m j.blank.empty size in
      let (room, inserted) = insert_tuple-empty m tuple j.blank.empty size in
      let placed =
        insert_tuple-Placed m (place_tuple m tuple) tuple 0 j.blank.valid room inserted in
      let u' = store R D u f (place_tuple m tuple) true in
      let (c, here) =
        store-IsCoherent_marked u p f (place_tuple m tuple) (λ q g k. j.coherent q g) j.valid
          j.at in
      let (c', reads) = unpin_page-IsCoherent u' p true c in
      let kept : (q : ℕ) → p ≢ q → content (unpin_page R D u' p true).0 q ≡ content u q =
        λ q k. reads q ∙ store-content u p q f (place_tuple m tuple) true j.valid j.at k in
      rw eq (
        refl,
        record {
          valid =
              unpin_page-IsValid u' p true (store-IsValid u f (place_tuple m tuple) true j.valid);
          coherent = c';
          low = made.low;
          real = made.real;
          numbered = made.numbered;
          page = (
            place_tuple m tuple,
            reads p ∙ here,
            placed.valid,
            placed.chained ∙ j.blank.ends,
            placed.there,
          );
          others = λ q x l nh apart apart' o.
              kept q apart ∙ j.others q x l apart' (same q x l nh apart o);
          last = λ b o. elim (j.last b (same prev b low numbered ne o)) [
            | inl x ↦ inl (kept prev ne ∙ x)
            | inr (x, refused) ↦ inr (kept prev ne ∙ x, refused)
          ];
        },
      )

  insert_into_new_lem :
      (tuple : List ℕ) (prev p f : ℕ) (s : Pool R D)
      → (fetch_page R D s p).1 ≡ some f
      → insert_into_new R D tuple prev p s
        ≡ fill_page R D tuple p f
            (link_prev R D prev p (init p) (store R D (fetch_page R D s p).0 f (init p) false))
  unfolding insert_into_new
  insert_into_new_lem tuple prev p f s e = rw (e, insert_into_new) refl

  append_page_lem :
      (h : Heap) (tuple : List ℕ) (prev p : ℕ) (s : Pool R D)
      → (allocate_new_page R D h prev s).1 ≡ some p
      → append_page R D h tuple prev s
        ≡ insert_into_new R D tuple prev p (allocate_new_page R D h prev s).0
  unfolding append_page
  append_page_lem h tuple prev p s e = rw (e, append_page) refl

  pub append_page-Appended :
      (h : Heap) (tuple : List ℕ) (s : Pool R D) (prev p f : ℕ)
      → IsValid s
      → IsCoherent s
      → IsSpared s h.file_id
      → (length tuple == 0 || ltb max_tuple_size (length tuple)) ≡ false
      → prev < id_limit
      → prev ≢ invalid_page_id
      → get_page_no prev ≢ 0
      → (new_page R D s h.file_id).1 ≡ some (p, f)
      → p ≢ prev
      → ((append_page R D h tuple prev s).1 ≡ some (record { page_id = p; slot_id = 0 }))
        × Appended s (with_new_page h prev p f s) prev p tuple (append_page R D h tuple prev s).0
  append_page-Appended h tuple s prev p f v c spared size low real numbered e ne =
      let made = new_page-MadePage s h.file_id p f v c spared e in
      let eq = allocated_page h prev p f s e in
      let b = set_prev_page_id (init p) prev in
      let n = (new_page R D s h.file_id).0 in
      let t = (unpin_page R D (store R D n f b true) p true).0 in
      let (fetched, held) =
        fetched-Held s t p f (init p) made.low made.real (stored-Ready s n p f b made) in
      let t' = store R D (fetch_page R D t p).0 f (init p) false in
      let whole : append_page R D h tuple prev s
          ≡ fill_page R D tuple p f (link_prev R D prev p (init p) t') =
        append_page_lem h tuple prev p s (ap (λ r. r.1) eq)
        ∙ ap (λ r. insert_into_new R D tuple prev p r.0) eq
        ∙ insert_into_new_lem tuple prev p f t fetched in
      subst {A = Pool R D × Option Rid}
        (λ r.
          (r.1 ≡ some (record { page_id = p; slot_id = 0 }))
          × Appended s (with_new_page h prev p f s) prev p tuple r.0)
        (sym whole)
        (subst
          (λ x.
            ((fill_page R D tuple p f (link_prev R D prev p (init p) t')).1
              ≡ some (record { page_id = p; slot_id = 0 }))
            × Appended s (store R D (fetch_page R D x p).0 f (init p) false) prev p tuple
                (fill_page R D tuple p f (link_prev R D prev p (init p) t')).0)
          (sym (ap (λ r. r.0) eq))
          (fill_page-Appended tuple s n t' prev p f (link_prev R D prev p (init p) t') made size ne
            low numbered held.same (link_prev-Joined s t' prev p f held low real)))
