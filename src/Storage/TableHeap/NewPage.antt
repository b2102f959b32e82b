-- ===== src/Storage/TableHeap/NewPage.antt =====
-- The new page of `InsertTuple` of goods_db/src/storage/table/table_heap.cpp, behind the loop.
use goods_db.Prelude.{
  ℕ, ◌<◌, ◌≡◌, ◌≢◌, refl, Bool, true, false, none, some, arith, Option-cases, ◌⊎◌, inl, inr, ap,
  sym, ◌∙◌, subst,
}
use goods_db.Prelude.Assoc.{lookup}
use goods_db.Prelude.Bytes.{Bytes}
use goods_db.Disk.{id_limit, invalid_page_id}
use goods_db.Disk.Store.{Store}
use goods_db.Buffer.Replacer.{Replacer}
use goods_db.Buffer.Pool.{Pool, update, fetch_page, fetch_hit, unpin_page, new_page}
use goods_db.Buffer.Pool.Valid.{IsValid}
use goods_db.Buffer.Pool.Content.{content, IsCoherent}
use goods_db.Buffer.Pool.Fetch.{fetch_page-Fetched, fetch_page_hit}
use goods_db.Buffer.Pool.Unpin.{unpin_page_stays, unpin_page-IsValid, unpin_page-IsCoherent}
use goods_db.Buffer.Pool.Visit.{
  store, store-IsValid, store-content, store-IsCoherent_marked, store-IsCoherent_kept, visit,
  visit-none, visit-Visited,
}
use goods_db.Buffer.Pool.NewPage.{SameBut, MadePage}
use goods_db.Storage.TablePage.{
  init, get_next_page_id, set_next_page_id, set_prev_page_id, get_slot_count, place_tuple,
  max_tuple_size,
}
use goods_db.Storage.TablePage
use goods_db.Storage.TablePage.Valid
use goods_db.Storage.TablePage.Valid.{init-IsValid, init-get_slot_count}
use goods_db.Storage.TablePage.Links.{
  set_prev_page_id-Relinked, get_next_page_id-set_prev_page_id, get_next_page_id-init,
}
use goods_db.Storage.TableHeap.{Heap, allocate_new_page, link_prev}

-- The bytes of a page without rows.
pub record Blank (m : Bytes) : Type 0 where
  pub valid : TablePage.Valid.IsValid m
  pub empty : get_slot_count m ≡ 0
  pub ends : get_next_page_id m ≡ invalid_page_id

init-Blank : (p : ℕ) → Blank (init p)
init-Blank p = record {
  valid = init-IsValid p;
  empty = init-get_slot_count p;
  ends = get_next_page_id-init p;
}

linked-Blank : (p prev : ℕ) → Blank (set_prev_page_id (init p) prev)
linked-Blank p prev =
    let r = set_prev_page_id-Relinked (init p) prev in
    record {
      valid = r.valid (init-IsValid p);
      empty = r.counted ∙ init-get_slot_count p;
      ends = get_next_page_id-set_prev_page_id (init p) prev ∙ get_next_page_id-init p;
    }

-- The work on the last page.
abbrev linker : ℕ → Bytes → Bytes × Bool × Unit {0}
linker p b = (set_next_page_id b p, true, tt)

module _ {R : Replacer} {D : Store} where
  -- The pool in which the last page is fetched: the new page is there, and is held in frame `f`.
  abbrev pub with_new_page : Heap → ℕ → ℕ → ℕ → Pool R D → Pool R D
  with_new_page h prev p f s =
      store R D (fetch_page R D (allocate_new_page R D h prev s).0 p).0 f (init p) false

  -- The pool with the new page in frame `f`, marked.
  pub record Ready (s : Pool R D) (p f : ℕ) (t : Pool R D) : Type 0 where
    pub valid : IsValid t
    pub coherent : IsCoherent t
    pub at : lookup p t.page_table ≡ some f
    pub mark : (t.pages f).is_dirty ≡ true
    pub same : SameBut p s t

  pub allocated_page :
      (h : Heap) (prev p f : ℕ) (s : Pool R D)
      → (new_page R D s h.file_id).1 ≡ some (p, f)
      → allocate_new_page R D h prev s ≡ (
        (unpin_page R D
            (store R D (new_page R D s h.file_id).0 f (set_prev_page_id (init p) prev) true)
            p
            true).0,
        some p,
      )
  unfolding allocate_new_page
  allocated_page h prev p f s e = rw (e, allocate_new_page) refl

  pub stored-Ready :
      (s n : Pool R D) (p f : ℕ) (b : Bytes)
      → MadePage s p f n
      → Ready s p f (unpin_page R D (store R D n f b true) p true).0
  stored-Ready s n p f b m =
      let n' = store R D n f b true in
      let c = store-IsCoherent_marked n p f b m.coherent m.valid m.at in
      let (stays, marks) = unpin_page_stays n' p true in
      let (c', reads) = unpin_page-IsCoherent n' p true c.0 in
      record {
        valid = unpin_page-IsValid n' p true (store-IsValid n f b true m.valid);
        coherent = c';
        at = ap (lookup p) stays ∙ (unfold store in m.at);
        mark = marks f (unfold store update in ground arith);
        same = λ q x l nh ne o.
            reads q ∙ store-content n p q f b true m.valid m.at ne ∙ m.same q x l nh ne o;
      }

  -- The pool with the new page pinned in frame `f`.
  pub record Held (s : Pool R D) (p f : ℕ) (t : Pool R D) : Type 0 where
    pub valid : IsValid t
    pub coherent : IsCoherent t
    pub at : lookup p t.page_table ≡ some f
    pub pinned : 0 < (t.pages f).pin_count
    pub same : SameBut p s t

  pub fetched-Held :
      (s t : Pool R D) (p f : ℕ) (b : Bytes)
      → p < id_limit
      → p ≢ invalid_page_id
      → Ready s p f t
      → ((fetch_page R D t p).1 ≡ some f) × Held s p f (store R D (fetch_page R D t p).0 f b false)
  fetched-Held s t p f b low real r =
      let hit = fetch_page_hit t p f real r.at in
      let t' : Pool R D = (fetch_page R D t p).0 in
      let e : (fetch_page R D t p).1 ≡ some f = ap (λ x. x.1) hit in
      let w = fetch_page-Fetched t p r.valid low in
      let (at, held) = w.found f e in
      let mark : (t'.pages f).is_dirty ≡ true =
        ap (λ x. (x.0.pages f).is_dirty) hit
        ∙ (unfold fetch_hit update in ground (arith, r.mark)) in
      (
        e,
        record {
          valid = store-IsValid t' f b false w.valid;
          coherent = (store-IsCoherent_kept t' p f b (w.coherent r.coherent) at mark).0;
          at = unfold store in at;
          pinned = unfold store update in ground (arith, held);
          same = λ q x l nh ne o.
              store-content t' p q f b false w.valid at ne
              ∙ w.same r.coherent q x l (r.same q x l nh ne o);
        },
      )

  -- The last page has the link, or could not be fetched and is as it was.
  pub record Joined (s : Pool R D) (prev p f : ℕ) (r : Pool R D × Bytes) : Type 0 where
    pub valid : IsValid r.0
    pub coherent : IsCoherent r.0
    pub at : lookup p r.0.page_table ≡ some f
    pub blank : Blank r.1
    pub others :
        (q : ℕ) (c : Bytes)
        → q < id_limit
        → prev ≢ q
        → content s q ≡ some c
        → content r.0 q ≡ some c
    pub last :
        (b : Bytes)
        → content s prev ≡ some b
        → (content r.0 prev ≡ some (set_next_page_id b p))
          ⊎ ((content r.0 prev ≡ some b) × ((fetch_page R D s prev).1 ≡ none))

  link_prev_lem :
      (prev p : ℕ) (m : Bytes) (s : Pool R D)
      → prev ≢ invalid_page_id
      → link_prev R D prev p m s ≡ (
        (visit R D s prev (linker p)).0,
        elim (visit R D s prev (linker p)).1 [ none ↦ m | some u ↦ set_prev_page_id m prev ],
      )
  unfolding link_prev
  link_prev_lem prev p m s ne = ground arith

  pub link_prev-Joined :
      (s t : Pool R D) (prev p f : ℕ)
      → Held s p f t
      → prev < id_limit
      → prev ≢ invalid_page_id
      → Joined t prev p f (link_prev R D prev p (init p) t)
  link_prev-Joined s t prev p f h low real =
      let w = visit-Visited t prev (linker p) h.valid h.coherent low (λ b k. absurd (cc k)) in
      subst (Joined t prev p f) (sym (link_prev_lem prev p (init p) t real)) (record {
        valid = w.valid;
        coherent = w.coherent;
        at = w.pinned p f h.at h.pinned;
        blank = elim (Option-cases (visit R D t prev (linker p)).1) [
          | inl missed ↦ rw missed (init-Blank p)
          | inr (u, done) ↦ rw done (linked-Blank p prev)
        ];
        others = w.others;
        last = λ b o. elim (Option-cases (visit R D t prev (linker p)).1) [
          | inl missed ↦ inr (w.missed missed prev b low o, visit-none t prev (linker p) missed)
          | inr (u, done) ↦ inl (w.done u b done o).1
        ];
      })
