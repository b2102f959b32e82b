-- ===== src/Buffer/Pool/Run.antt =====
-- Every history of calls keeps the pool's invariant.
use goods_db.Prelude.{ℕ, ◌≤◌, ◌<◌, ◌≡◌, Bool, true, some, arith, sym, subst, ◌∙◌}
use goods_db.Prelude.Assoc.{lookup}
use goods_db.Prelude.Bytes.{Bytes}
use goods_db.Disk.{id_limit}
use goods_db.Disk.Store.{Store}
use goods_db.Buffer.Replacer.{Replacer}
use goods_db.Buffer.Pool.{Pool, update, fetch_page, unpin_page, new_page, delete_page}
use goods_db.Buffer.Pool.Valid.{IsValid}
use goods_db.Buffer.Pool.Content.{content, IsCoherent}
use goods_db.Buffer.Pool.Fetch.{fetch_page-Fetched, fetch_page-content}
use goods_db.Buffer.Pool.Unpin.{unpin_page-IsValid, unpin_page-IsCoherent}
use goods_db.Buffer.Pool.Client.{IsFresh, new_page-IsValid, delete_page-IsValid}

module _ {R : Replacer} {D : Store} where
  -- On a valid pool whose clean frames agree with the disk, they still agree after `FetchPage` of
  -- any page, and a page that could be read, from its frame or from the disk, reads the same after
  -- it, whatever was evicted.
  pub content-fetch_page :
      (s : Pool R D) (p q : ℕ) (c : Bytes)
      → IsValid s
      → IsCoherent s
      → p < id_limit
      → q < id_limit
      → content s q ≡ some c
      → IsCoherent (fetch_page R D s p).0 × (content (fetch_page R D s p).0 q ≡ some c)
  content-fetch_page s p q b v c h k e =
      let t = fetch_page-Fetched s p v h in (t.coherent c, t.same c q b k e)

  -- On a valid pool, a pinned page stays in its frame with its bytes, and keeps its pins, through
  -- `FetchPage` of any page.
  pub fetch_page_pinned :
      (s : Pool R D) (p q g : ℕ)
      → IsValid s
      → p < id_limit
      → lookup q s.page_table ≡ some g
      → 0 < (s.pages g).pin_count
      → (lookup q (fetch_page R D s p).0.page_table ≡ some g)
        × (((fetch_page R D s p).0.pages g).bytes ≡ (s.pages g).bytes)
        × ((s.pages g).pin_count ≤ ((fetch_page R D s p).0.pages g).pin_count)
  fetch_page_pinned s p q g v h = (fetch_page-Fetched s p v h).pinned q g

  -- A writer that holds a page changes its bytes and marks it dirty.
  unfoldable pub write_page : Pool R D → ℕ → Bytes → Pool R D
  write_page s f b = record s {
    pages = update s.pages f (record (s.pages f) { bytes = b; is_dirty = true });
  }

  pub data Step (s t : Pool R D) : Type 0 where
    fetch : (p : ℕ) → p < id_limit → t ≡ (fetch_page R D s p).0 → Step s t
    unpin : (p : ℕ) (d : Bool) → t ≡ (unpin_page R D s p d).0 → Step s t
    new : (file : ℕ) → IsFresh s file → t ≡ (new_page R D s file).0 → Step s t
    delete : (p : ℕ) → t ≡ (delete_page R D s p).0 → Step s t
    write : (f : ℕ) (b : Bytes) → 0 < (s.pages f).pin_count → t ≡ write_page s f b → Step s t

  pub data Reach (s : Pool R D) : Pool R D → Type 0 where
    here : Reach s s
    next : {t u : Pool R D} → Reach s t → Step t u → Reach s u

  pub write_page-IsValid :
      (s : Pool R D) (f : ℕ) (b : Bytes) → IsValid s → IsValid (write_page s f b)
  unfolding write_page update
  write_page-IsValid s f b v = ground arith

  -- The bytes that a writer leaves in a frame are what its page reads as.
  pub content-write_page :
      (s : Pool R D) (p f : ℕ) (b : Bytes)
      → IsCoherent s
      → lookup p s.page_table ≡ some f
      → IsCoherent (write_page s f b) × (content (write_page s f b) p ≡ some b)
  unfolding write_page update
  content-write_page s p f b c at = (λ q g k n. ground (arith, c q g), ground arith)

  Step-IsValid : (s t : Pool R D) → Step s t → IsValid s → IsValid t
  Step-IsValid s t (fetch p h e) v = subst IsValid (sym e) (fetch_page-Fetched s p v h).valid
  Step-IsValid s t (unpin p d e) v = subst IsValid (sym e) (unpin_page-IsValid s p d v)
  Step-IsValid s t (new file f e) v = subst IsValid (sym e) (new_page-IsValid s file v f)
  Step-IsValid s t (delete p e) v = subst IsValid (sym e) (delete_page-IsValid s p v)
  Step-IsValid s t (write f b n e) v = subst IsValid (sym e) (write_page-IsValid s f b v)

  -- Every pool that calls of `FetchPage`, `UnpinPage`, `NewPage` and `DeletePage`, and writes into
  -- pinned frames, can reach from a valid pool is valid, where the disk gives out free pages.
  pub Reach-IsValid : {s t : Pool R D} → IsValid s → Reach s t → IsValid t
  Reach-IsValid v here = v
  Reach-IsValid v (next {t} {u} r st) = Step-IsValid t u st (Reach-IsValid v r)

  -- Clients that fetch pages and give them back, in any order.
  pub data Reads (s : Pool R D) : Pool R D → Type 0 where
    start : Reads s s
    fetched :
        {t u : Pool R D} (p : ℕ) → Reads s t → p < id_limit → u ≡ (fetch_page R D t p).0 → Reads s u
    returned :
        {t u : Pool R D} (p : ℕ) (d : Bool) → Reads s t → u ≡ (unpin_page R D t p d).0 → Reads s u

  pub Reads-keep :
      {s t : Pool R D} (q : ℕ) (c : Bytes)
      → IsValid s
      → IsCoherent s
      → q < id_limit
      → content s q ≡ some c
      → Reads s t
      → IsValid t × IsCoherent t × (content t q ≡ some c)
  Reads-keep q c v h b e start = (v, h, e)
  Reads-keep q c v h b e (fetched {t} {u} p r l eq) =
      let (v', h', e') = Reads-keep q c v h b e r in
      let f = fetch_page-Fetched t p v' l in
      subst (λ x. IsValid x × IsCoherent x × (content x q ≡ some c)) (sym eq)
        (f.valid, f.coherent h', f.same h' q c b e')
  Reads-keep q c v h b e (returned {t} {u} p d r eq) =
      let (v', h', e') = Reads-keep q c v h b e r in
      let (h'', same) = unpin_page-IsCoherent t p d h' in
      subst (λ x. IsValid x × IsCoherent x × (content x q ≡ some c)) (sym eq)
        (unpin_page-IsValid t p d v', h'', same q ∙ e')

  -- A page that reads as `c` in a valid pool whose clean frames agree with the disk is given out
  -- with the bytes `c` by a later `FetchPage` that succeeds, after any sequence of calls of
  -- `FetchPage` and `UnpinPage`.
  pub fetch_after-Reads :
      {s t : Pool R D} (q f : ℕ) (c : Bytes)
      → IsValid s
      → IsCoherent s
      → q < id_limit
      → content s q ≡ some c
      → Reads s t
      → (fetch_page R D t q).1 ≡ some f
      → ((fetch_page R D t q).0.pages f).bytes ≡ c
  fetch_after-Reads {t = t} q f c v h b e r k =
      let (v', h', e') = Reads-keep q c v h b e r in fetch_page-content t q f c v' h' b k e'
