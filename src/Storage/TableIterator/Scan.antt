-- ===== src/Storage/TableIterator/Scan.antt =====
-- Where `AdvanceToNextValid` of goods_db/src/storage/table/table_iterator.cpp takes the iterator.
use goods_db.Prelude.{
  ℕ, suc, ◌+◌, ◌<◌, ◌≡◌, ◌≢◌, refl, true, false, List, [], ◌∷◌, ◌++◌, none, some, arith, ◌==◌,
  length, ◌⊎◌, ◌∙◌,
}
use goods_db.Prelude.Assoc.{lookup}
use goods_db.Prelude.Bytes.{Bytes}
use goods_db.Disk.{id_limit, invalid_page_id}
use goods_db.Disk.Store.{Store}
use goods_db.Buffer.Replacer.{Replacer}
use goods_db.Buffer.Pool.{Pool, fetch_page}
use goods_db.Buffer.Pool.Valid.{IsValid}
use goods_db.Buffer.Pool.Content.{content, IsCoherent}
use goods_db.Buffer.Pool.Fetch.{fetch_page-Fetched, fetch_page-content}
use goods_db.Buffer.Pool.Unpin.{unpin_page-IsValid, unpin_page-IsCoherent}
use goods_db.Storage.TablePage.{get_slot_count, get_next_page_id}
use goods_db.Storage.TableHeap.Chain.{Chain, Same}
use goods_db.Storage.TableIterator.{
  Row, first_live, TableIterator, release, leave_page, hold, give_up, advance_pages,
}
use goods_db.Storage.TableIterator.Slots.{row_at, slots_behind, slots}

module _ {R : Replacer} {D : Store} where
  -- The pool reads as `s` does.
  pub record Settled (s t : Pool R D) : Type 0 where
    pub valid : IsValid t
    pub coherent : IsCoherent t
    pub same : Same s t

  -- The pool `e` after a fetch of page `p` that a pool refused which reads as `s` does; no frame is
  -- free.
  pub record Cut (s : Pool R D) (p : ℕ) (e : Pool R D) : Type 0 where
    pub before : Pool R D
    pub settled : Settled s before
    pub refused : (fetch_page R D before p).1 ≡ none
    pub after : (fetch_page R D before p).0 ≡ e
    pub full : e.free_list ≡ []

  -- A scan of these pages that leaves the pool `e`: the rows of each, or of those before one whose
  -- fetch was refused and made the pool what it is.
  abbrev pub Scans : Pool R D → Pool R D → List ℕ → List Row → Type 0
  Scans s e [] rows = rows ≡ []
  Scans s e (p ∷ l) rows =
      ((rows ≡ []) × Cut s p e)
      ⊎ ((m : Bytes) × (rest : List Row) × (content s p ≡ some m)
          × (rows ≡ slots p m ++ rest)
          × Scans s e l rest)

  -- The iterator on slot `i` of a page in frame `f` with the bytes `m`; `l` are the pages behind.
  pub record On (top : ℕ) (s : Pool R D) (it : TableIterator R D) (f : ℕ) (m : Bytes) (i : ℕ)
      (l : List ℕ) : Type 0 where
    pub pool : Settled s it.pool
    pub real : it.current_page_id ≢ invalid_page_id
    pub held : it.current_page ≡ some f
    pub at : lookup it.current_page_id it.pool.page_table ≡ some f
    pub bytes : (it.pool.pages f).bytes ≡ m
    pub slot : it.next_slot ≡ i + 1
    pub below : i < get_slot_count m
    pub behind : Chain s (get_next_page_id m) l
    pub few : length l < top

  -- Where the iterator is, when the rows that it has still to give are to satisfy `Q`.
  abbrev pub Position : ℕ → Pool R D → (Pool R D → List Row → Type 0) → TableIterator R D → Type 0
  Position top s Q it =
      ((it.current_page_id ≡ invalid_page_id) × Settled s it.pool × Q it.pool [])
      ⊎ ((f : ℕ) × (m : Bytes) × (i : ℕ) × (l : List ℕ) × On top s it f m i l
          × ((e : Pool R D) (rest : List Row)
              → Scans s e l rest
              → Q e (row_at it.current_page_id m i ∷ slots_behind it.current_page_id m i ++ rest)))

  -- The iterator between two pages.
  pub record Between (s : Pool R D) (it : TableIterator R D) : Type 0 where
    pub pool : Settled s it.pool
    pub empty : it.current_page ≡ none

  pub release-none : (it : TableIterator R D) → it.current_page ≡ none → release R D it ≡ it
  unfolding release
  release-none it e = ground arith

  pub advance_end :
      (fuel : ℕ) (it : TableIterator R D)
      → it.current_page_id ≡ invalid_page_id
      → it.current_page ≡ none
      → advance_pages R D (suc fuel) it ≡ it
  unfolding advance_pages
  advance_end fuel it e none_held =
      let last : (it.current_page_id == invalid_page_id) ≡ true = ground (arith, e) in
      (rw (last, advance_pages) refl) ∙ release-none it none_held

  module _ (fuel : ℕ) (it : TableIterator R D)
      (real : (it.current_page_id == invalid_page_id) ≡ false) where
    pub advance_refused :
        (fetch_page R D it.pool it.current_page_id).1 ≡ none
        → advance_pages R D (suc fuel) it ≡ give_up R D it
    unfolding advance_pages
    advance_refused e = rw (real, advance_pages) (rw (e, advance_pages) refl)

    module _ (f : ℕ) (e : (fetch_page R D it.pool it.current_page_id).1 ≡ some f) where
      abbrev pub bytes_of : Bytes
      bytes_of = ((hold R D it f).pool.pages f).bytes

      pub advance_here :
          (i : ℕ)
          → first_live bytes_of (get_slot_count bytes_of) 0 ≡ some i
          → advance_pages R D (suc fuel) it ≡ record (hold R D it f) { next_slot = i + 1 }
      unfolding advance_pages
      advance_here i k = ground arith

      pub advance_on :
          first_live bytes_of (get_slot_count bytes_of) 0 ≡ none
          → advance_pages R D (suc fuel) it
            ≡ advance_pages R D fuel (leave_page R D (hold R D it f) (get_next_page_id bytes_of))
      unfolding advance_pages
      advance_on k = ground arith

  -- A page that is left is unpinned.
  pub leave_page-Between :
      (s : Pool R D) (it : TableIterator R D) (f p : ℕ)
      → Settled s it.pool
      → it.current_page ≡ some f
      → Between s (leave_page R D it p) × ((leave_page R D it p).current_page_id ≡ p)
  unfolding leave_page release
  leave_page-Between s it f p w held =
      let q = (it.pool.pages f).page_id in
      let (c, reads) = unpin_page-IsCoherent it.pool q false w.coherent in
      rw (held, release)
        (
          record {
            pool = record {
              valid = unpin_page-IsValid it.pool q false w.valid;
              coherent = c;
              same = λ x b low o. reads x ∙ w.same x b low o;
            };
            empty = refl;
          },
          refl,
        )

  -- The page of the iterator, fetched.
  pub record FetchedPage (s : Pool R D) (it : TableIterator R D) (f : ℕ) (m : Bytes) : Type 0 where
    pub pool : Settled s (hold R D it f).pool
    pub at : lookup it.current_page_id (hold R D it f).pool.page_table ≡ some f
    pub bytes : ((hold R D it f).pool.pages f).bytes ≡ m

  pub hold-FetchedPage :
      (s : Pool R D) (it : TableIterator R D) (f : ℕ) (m : Bytes)
      → Settled s it.pool
      → it.current_page_id < id_limit
      → content s it.current_page_id ≡ some m
      → (fetch_page R D it.pool it.current_page_id).1 ≡ some f
      → FetchedPage s it f m
  unfolding hold
  hold-FetchedPage s it f m w low held e =
      let p = it.current_page_id in
      let t = fetch_page-Fetched it.pool p w.valid low in
      record {
        pool = record {
          valid = t.valid;
          coherent = t.coherent w.coherent;
          same = λ q b l o. t.same w.coherent q b l (w.same q b l o);
        };
        at = (t.found f e).0;
        bytes = fetch_page-content it.pool p f m w.valid w.coherent low e (w.same p m low held);
      }

  pub give_up-Settled :
      (s : Pool R D) (it : TableIterator R D)
      → Settled s it.pool
      → it.current_page_id < id_limit
      → Settled s (give_up R D it).pool
  unfolding give_up
  give_up-Settled s it w low =
      let t = fetch_page-Fetched it.pool it.current_page_id w.valid low in
      record {
        valid = t.valid;
        coherent = t.coherent w.coherent;
        same = λ q b l o. t.same w.coherent q b l (w.same q b l o);
      }
