-- ===== src/Storage/TableHeap/Client.antt =====
-- What a client of goods_db/src/storage/table/table_heap.cpp sees of the rows.
use goods_db.Prelude.{
  ℕ, ◌<◌, ◌≡◌, refl, Bool, true, false, List, Option, none, some, arith, ◌==◌, if◌then◌else◌,
  Bool-cases, Option-cases, inl, inr, ap, sym, ◌∙◌, subst,
}
use goods_db.Prelude.Bytes.{Bytes}
use goods_db.Disk.{id_limit}
use goods_db.Disk.Store.{Store}
use goods_db.Buffer.Replacer.{Replacer}
use goods_db.Buffer.Pool.{Pool, fetch_page}
use goods_db.Buffer.Pool.Valid.{IsValid}
use goods_db.Buffer.Pool.Content.{content, IsCoherent}
use goods_db.Buffer.Pool.Visit.{visit, visit-some, visit-Visited}
use goods_db.Storage.TablePage.{max_tuple_size, is_deleted, is_live}
use goods_db.Storage.TablePage
use goods_db.Storage.TablePage.Valid
use goods_db.Storage.TablePage.Delete.{get_tuple-mark_delete}
use goods_db.Storage.TableHeap.{Rid, get_tuple, mark_delete, join, answer}
use goods_db.Storage.TableHeap.Chain.{row, row-some, row-none}

-- The work of `GetTuple` and of `MarkDelete`.
abbrev reader : ℕ → Bytes → Bytes × Bool × Option (List ℕ)
reader k m = (m, false, if is_deleted m k then none else TablePage.get_tuple m k)

abbrev marker : ℕ → Bytes → Bytes × Bool × Bool
marker k m = let (m', done) = TablePage.mark_delete m k in (m', done, done)

reader_lem : (m : Bytes) (k : ℕ) → (reader k m).2 ≡ TablePage.get_tuple m k
unfolding TablePage.get_tuple is_live
reader_lem m k = ground arith

marker_dead : (m : Bytes) (k : ℕ) → (marker k m).1 ≡ false → (marker k m).0 ≡ m
unfolding TablePage.mark_delete
marker_dead m k h = ground arith

module _ {R : Replacer} {D : Store} where
  -- On a valid and coherent pool, where a page of a file can be fetched that holds the bytes of a
  -- table page, GetTuple answers with the tuple of the slot, and the pool reads as before.
  pub get_tuple-row :
      (rid : Rid) (s : Pool R D) (m : Bytes) (f q : ℕ) (c : Bytes)
      → IsValid s
      → IsCoherent s
      → rid.page_id < id_limit
      → content s rid.page_id ≡ some m
      → (fetch_page R D s rid.page_id).1 ≡ some f
      → q < id_limit
      → content s q ≡ some c
      → ((get_tuple R D rid s).1 ≡ TablePage.get_tuple m rid.slot_id)
        × (content (get_tuple R D rid s).0 q ≡ some c)
  unfolding get_tuple
  get_tuple-row rid s m f q c v k low held e low' held' =
      let p = rid.page_id in
      let work = reader rid.slot_id in
      let w = visit-Visited s p work v k low (λ b h. refl) in
      let (a, got) = visit-some s p f work e in
      let (found, after) = w.done a m got held in
      (
        ap join got ∙ found ∙ reader_lem m rid.slot_id,
        elim (Bool-cases (p == q)) [
          | inl same ↦
              let i : p ≡ q = ground arith in
              let b : content s q ≡ some m = subst (λ x. content s x ≡ some m) i held in
              subst (λ x. content (visit R D s p work).0 x ≡ some c) i (after ∙ sym b ∙ held')
          | inr other ↦ w.others q c low' (λ i. ground (arith, other)) held'
        ],
      )

  -- MarkDelete of a row whose page can be fetched, on a valid and coherent pool where that page is
  -- a valid table page with the slot live, succeeds: after it nothing is read under the row id,
  -- and every other row reads as before.
  pub row-mark_delete :
      (rid other : Rid) (s : Pool R D) (m : Bytes) (f : ℕ) (u : List ℕ)
      → IsValid s
      → IsCoherent s
      → rid.page_id < id_limit
      → content s rid.page_id ≡ some m
      → TablePage.Valid.IsValid m
      → is_live m rid.slot_id ≡ true
      → (fetch_page R D s rid.page_id).1 ≡ some f
      → other.page_id < id_limit
      → (if rid.page_id == other.page_id then rid.slot_id == other.slot_id else false) ≡ false
      → row s other ≡ some u
      → ((mark_delete R D rid s).1 ≡ true)
        × (row (mark_delete R D rid s).0 rid ≡ none)
        × (row (mark_delete R D rid s).0 other ≡ some u)
  unfolding mark_delete
  row-mark_delete rid other s m f u v c low held valid live e low' apart there =
      let p = rid.page_id in
      let q = other.page_id in
      let k = rid.slot_id in
      let j = other.slot_id in
      let work = marker k in
      let w = visit-Visited s p work v c low (λ b. marker_dead b k) in
      let (a, got) = visit-some s p f work e in
      let (found, after) = w.done a m got held in
      let (done, valid', gone) = get_tuple-mark_delete m k k valid live in
      let (done', valid'', kept) = get_tuple-mark_delete m k j valid live in
      let t = (visit R D s p work).0 in
      (
        ap answer got ∙ found ∙ done,
        row-some t rid (work m).0 after ∙ gone ∙ (ground arith),
        elim (Bool-cases (p == q)) [
          | inl same ↦
              let i : p ≡ q = ground arith in
              let o : content t q ≡ some (work m).0 =
                subst (λ x. content t x ≡ some (work m).0) i after in
              let b : content s q ≡ some m = subst (λ x. content s x ≡ some m) i held in
              let old : TablePage.get_tuple m j ≡ some u = sym (row-some s other m b) ∙ there in
              row-some t other (work m).0 o ∙ ground (arith, kept, old, apart, same)
          | inr ne ↦ elim (Option-cases (content s q)) [
            | inl out ↦ absurd (cc (row-none s other out, there))
            | inr (b, b_held) ↦
                row-some t other b (w.others q b low' (λ i. ground (arith, ne)) b_held)
                ∙ sym (row-some s other b b_held)
                ∙ there
          ]
        ],
      )
