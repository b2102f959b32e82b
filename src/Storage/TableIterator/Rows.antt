-- ===== src/Storage/TableIterator/Rows.antt =====
-- A client's scan with goods_db/src/storage/table/table_iterator.cpp gives the rows of the
-- pages of the chain.
use goods_db.Prelude.{
  ℕ, zero, suc, ◌+◌, ◌≤◌, ◌<◌, ◌≡◌, ◌≢◌, refl, List, [], ◌∷◌, ◌++◌, none, some, arith, length,
  Bool-cases, inl, inr, ap, sym, ◌∙◌, subst,
}
use goods_db.Prelude.Bytes.{Bytes}
use goods_db.Disk.{invalid_page_id}
use goods_db.Disk.Store.{Store}
use goods_db.Buffer.Replacer.{Replacer}
use goods_db.Buffer.Pool.{Pool}
use goods_db.Buffer.Pool.Valid.{IsValid}
use goods_db.Buffer.Pool.Content.{content, IsCoherent}
use goods_db.Storage.TablePage.{get_next_page_id}
use goods_db.Storage.TableHeap.Chain.{Chain}
use goods_db.Storage.TableIterator.{
  Row, TableIterator, advance_pages, advance_to_next_valid, reset, make_iterator, has_next,
  current_row, next, scan,
}
use goods_db.Storage.TableIterator.Slots.{row_at, slots_behind, slots}
use goods_db.Prelude.Lists.{length-append}
use goods_db.Storage.TableIterator.{count_from, count}
use goods_db.Storage.TableIterator.Scan.{Settled, Scans, On, Position, release-none}
use goods_db.Storage.TableIterator.Steps.{advance_pages-Position, advance_to_next_valid-Position}

module _ {R : Replacer} {D : Store} where
  -- The rows that are not deleted, page by page.
  abbrev pub all_rows : Pool R D → List ℕ → List Row
  all_rows s [] = []
  all_rows s (p ∷ l) = elim (content s p) [
    | none ↦ all_rows s l
    | some m ↦ slots p m ++ all_rows s l
  ]

  all_rows-some :
      (s : Pool R D) (p : ℕ) (l : List ℕ) (m : Bytes)
      → content s p ≡ some m
      → all_rows s (p ∷ l) ≡ slots p m ++ all_rows s l
  all_rows-some s p l m e = ground arith

  -- No scan gives more rows, and one gives all of them.
  Scans-length :
      (s z : Pool R D) (l : List ℕ) (rows : List Row)
      → Scans s z l rows
      → length rows ≤ length (all_rows s l)
  Scans-length s z [] rows h = rw h (omega arith)
  Scans-length s z (p ∷ l) rows (inl (e, cut)) = rw e (omega arith)
  Scans-length s z (p ∷ l) rows (inr (m, rest, held, e, h)) =
      rw (e, all_rows-some s p l m held)
        (omega (
          arith,
          length-append (slots p m) rest,
          length-append (slots p m) (all_rows s l),
          Scans-length s z l rest h,
        ))

  Scans-all_rows : (s z : Pool R D) (c : ℕ) (l : List ℕ) → Chain s c l → Scans s z l (all_rows s l)
  Scans-all_rows s z c [] chain = refl
  Scans-all_rows s z c (p ∷ l) (here, low, real, numbered, (m, held, valid, behind)) = inr (
    m,
    all_rows s l,
    held,
    all_rows-some s p l m held,
    Scans-all_rows s z (get_next_page_id m) l behind,
  )

  scan_end :
      (fuel rows : ℕ) (it : TableIterator R D)
      → it.current_page_id ≡ invalid_page_id
      → scan R D fuel (suc rows) it ≡ (it, [])
  unfolding scan has_next
  scan_end fuel rows it e = ground arith

  scan_next :
      (fuel rows : ℕ) (it : TableIterator R D)
      → it.current_page_id ≢ invalid_page_id
      → let r = scan R D fuel rows (advance_to_next_valid R D fuel it) in
        scan R D fuel (suc rows) it ≡ (r.0, current_row R D it ∷ r.1)
  unfolding scan has_next next
  scan_next fuel rows it real = ground arith

  current_row-On :
      (top : ℕ) (s : Pool R D) (it : TableIterator R D) (f : ℕ) (m : Bytes) (i : ℕ) (l : List ℕ)
      → On top s it f m i l
      → current_row R D it ≡ row_at it.current_page_id m i
  unfolding current_row
  current_row-On top s it f m i l o = ground arith

  -- What the loop ends with: rows that satisfy `Q`, no page, and a pool that reads as `s`.
  pub record Scanned (s : Pool R D) (Q : Pool R D → List Row → Type 0)
      (r : TableIterator R D × List Row) : Type 0 where
    pub pool : Settled s r.0.pool
    pub over : r.0.current_page_id ≡ invalid_page_id
    pub rows : Q r.0.pool r.1

  scan-Scanned :
      (top rows : ℕ) (s : Pool R D) (it : TableIterator R D) (Q : Pool R D → List Row → Type 0)
      → Position top s Q it
      → ((z : Pool R D) (r : List Row) → Q z r → length r < rows)
      → Scanned s Q (scan R D top rows it)
  scan-Scanned top zero s it Q (inl (e, w, q)) few = absurd (omega (arith, few it.pool [] q))
  scan-Scanned top zero s it Q (inr (f, m, i, l, o, q)) few =
      let rest = all_rows s l in
      absurd (
        omega (
          arith,
          few it.pool (row_at it.current_page_id m i ∷ slots_behind it.current_page_id m i ++ rest)
              (q it.pool rest (Scans-all_rows s it.pool (get_next_page_id m) l o.behind)),
        ))
  scan-Scanned top (suc rows) s it Q (inl (e, w, q)) few =
      subst (Scanned s Q) (sym (scan_end top rows it e)) (record { pool = w; over = e; rows = q })
  scan-Scanned top (suc rows) s it Q (inr (f, m, i, l, o, q)) few =
      let row = row_at it.current_page_id m i in
      let r =
        scan-Scanned top rows s (advance_to_next_valid R D top it) (λ z k. Q z (row ∷ k))
          (advance_to_next_valid-Position top s it f m i l (λ z k. Q z (row ∷ k)) o q)
          (λ z k h. omega (arith, few z (row ∷ k) h)) in
      subst (Scanned s Q) (sym (scan_next top rows it o.real)) (record {
        pool = r.pool;
        over = r.over;
        rows =
            subst
              (λ x.
                Q (scan R D top rows (advance_to_next_valid R D top it)).0.pool
                  (x ∷ (scan R D top rows (advance_to_next_valid R D top it)).1))
              (sym (current_row-On top s it f m i l o)) r.rows;
      })

  advance_empty :
      (fuel : ℕ) (it : TableIterator R D)
      → it.current_page ≡ none
      → advance_to_next_valid R D fuel it ≡ advance_pages R D fuel it
  unfolding advance_to_next_valid
  advance_empty fuel it e = ground arith

  make_iterator_lem :
      (fuel : ℕ) (s : Pool R D) (first : ℕ)
      → make_iterator R D fuel s first
        ≡ advance_pages R D fuel (record {
          pool = s;
          first_page_id = first;
          current_page_id = first;
          next_slot = 0;
          current_page = none;
        })
  unfolding make_iterator reset
  make_iterator_lem fuel s first =
      let it : TableIterator R D = record {
        pool = s;
        first_page_id = first;
        current_page_id = first;
        next_slot = 0;
        current_page = none;
      } in
      ap (advance_to_next_valid R D fuel) (release-none it refl) ∙ advance_empty fuel it refl

  -- On a valid and coherent pool with a chain of fewer pages than `fuel` and fewer rows than
  -- `rows`, the loop of HasNext and Next over a new iterator ends: it gives the row id and the
  -- bytes of every slot that is not deleted, page after page and in the order of the slots, of the
  -- whole chain, or of the pages before one whose fetch the pool refused. It is the last call then,
  -- which left the pool as it is, without a free frame. The pool is valid and coherent, and every
  -- page reads as before.
  pub scan-Scans :
      (fuel rows first : ℕ) (s : Pool R D) (l : List ℕ)
      → IsValid s
      → IsCoherent s
      → Chain s first l
      → length l < fuel
      → length (all_rows s l) < rows
      → Scanned s (λ z. Scans s z l) (scan R D fuel rows (make_iterator R D fuel s first))
  scan-Scans fuel rows first s l v c chain pages few =
      scan-Scanned fuel rows s (make_iterator R D fuel s first) (λ z. Scans s z l)
        (subst (Position fuel s (λ z. Scans s z l)) (sym (make_iterator_lem fuel s first)) (
          advance_pages-Position fuel fuel s _ first l (λ z. Scans s z l)
            (record {
              pool = record { valid = v; coherent = c; same = λ q b low o. o };
              empty = refl;
            })
            refl chain pages (omega arith) (λ z rest sc. sc)))
        (λ z r h. omega (arith, few, Scans-length s z l r h))

  -- The loop of `Count` goes over the same rows.
  count_from-scan :
      (fuel rows : ℕ) (it : TableIterator R D) (n : ℕ)
      → count_from R D fuel rows it n
        ≡ ((scan R D fuel rows it).0, n + length (scan R D fuel rows it).1)
  unfolding count_from scan next
  count_from-scan fuel zero it n = ap (λ k. (it, k)) (omega arith)
  count_from-scan fuel (suc rows) it n = elim (Bool-cases (has_next R D it)) [
    | inl more ↦ rw more (
        count_from-scan fuel rows (advance_to_next_valid R D fuel it) (n + 1)
        ∙ ap (λ k. ((scan R D fuel rows (advance_to_next_valid R D fuel it)).0, k)) (omega arith))
    | inr over ↦ rw over (ap (λ k. (it, k)) (omega arith))
  ]

  -- Count gives the number of rows that the loop of HasNext and Next gives from the start.
  pub count-scan :
      (fuel rows : ℕ) (it : TableIterator R D)
      → (count R D fuel rows it).1 ≡ length (scan R D fuel rows (reset R D fuel it)).1
  unfolding count
  count-scan fuel rows it =
      ap (λ r. r.1) (count_from-scan fuel rows (reset R D fuel it) 0) ∙ omega arith
