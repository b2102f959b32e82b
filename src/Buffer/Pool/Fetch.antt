-- ===== src/Buffer/Pool/Fetch.antt =====
-- `FetchPage`: the page is in the pool and pinned, and no page has changed for any reader.
use goods_db.Prelude.{
  ℕ, ◌+◌, ◌<◌, ◌≡◌, ◌≢◌, Option, none, some, arith, Option-cases, inl, inr, sym, subst, ◌∙◌, ap,
}
use native.Mathlib.Decide.{ℕ_discrete}
use goods_db.Prelude.Assoc.{lookup}
use goods_db.Prelude.Bytes.{Bytes}
use goods_db.Disk.{id_limit, invalid_page_id}
use goods_db.Disk.Store.{Store}
use goods_db.Buffer.Replacer.{Replacer}
use goods_db.Buffer.Pool.{Pool, update, get_free_frame, fetch_hit, load, fetch_miss, fetch_page}
use goods_db.Buffer.Pool.Valid.{IsValid, IsValid-count, fetch_hit-IsValid}
use goods_db.Buffer.Pool.Content.{content, IsCoherent, Freed, get_free_frame-Freed}
use goods_db.Buffer.Pool.Load.{Fetched, load-Fetched}

module _ {R : Replacer} {D : Store} where
  -- A search for a frame, then the load.
  after-Fetched :
      (s s' : Pool R D) (o : Option ℕ) (p : ℕ) (r : Pool R D × Option ℕ)
      → Freed s (s', o)
      → Fetched s' p r
      → Fetched s p r
  after-Fetched s s' o p r w t = record {
    valid = t.valid;
    found = t.found;
    pinned = λ q g e n.
        let (stays, page) = w.pinned q g e n in
        let (stays', bytes, count) = t.pinned q g stays (ground (arith, page)) in
        (stays', bytes ∙ ap (λ k. k.bytes) page, ground (arith, page, count));
    coherent = λ c. t.coherent (w.coherent c);
    same = λ c q b h e. t.same (w.coherent c) q b h (w.same c q b h e);
  }

  missed-Fetched : (s s' : Pool R D) (p : ℕ) → Freed s (s', none) → Fetched s p (s', none)
  missed-Fetched s s' p w = ground arith

  pub fetch_miss-none :
      (s : Pool R D) (p : ℕ)
      → (get_free_frame R D s).1 ≡ none
      → fetch_miss R D s p ≡ ((get_free_frame R D s).0, none)
  unfolding fetch_miss
  fetch_miss-none s p e = rw (e, fetch_miss)

  fetch_miss-some :
      (s : Pool R D) (p f : ℕ)
      → (get_free_frame R D s).1 ≡ some f
      → fetch_miss R D s p ≡ load R D (get_free_frame R D s).0 f p
  unfolding fetch_miss
  fetch_miss-some s p f e = rw (e, fetch_miss)

  fetch_miss-Fetched :
      (s : Pool R D) (p : ℕ)
      → IsValid s
      → lookup p s.page_table ≡ none
      → p < id_limit
      → Fetched s p (fetch_miss R D s p)
  fetch_miss-Fetched s p v a h =
      let w = get_free_frame-Freed s v in
      let s' : Pool R D = (get_free_frame R D s).0 in
      elim (Option-cases (get_free_frame R D s).1) [
        | inl missed ↦
            subst (Fetched s p) (sym (fetch_miss-none s p missed))
              (missed-Fetched s s' p (subst (λ o. Freed s (s', o)) missed w))
        | inr (f, found) ↦ subst (Fetched s p) (sym (fetch_miss-some s p f found)) (
            after-Fetched s s' (get_free_frame R D s).1 p (load R D s' f p) w (
              load-Fetched s' f p w.valid (w.frame f found).0 (w.frame f found).1 (w.absent p a) h))
      ]

  hit-Fetched :
      (s : Pool R D) (f p : ℕ)
      → IsValid s
      → lookup p s.page_table ≡ some f
      → Fetched s p (fetch_hit R D s f, some f)
  hit-Fetched s f p v at =
      let v' = fetch_hit-IsValid s f p v at in
      unfold fetch_hit update in
      record {
        valid = v';
        found = λ g e. (ground arith, ground arith);
        pinned = λ q g e n. (e, ground arith, ground arith);
        coherent = λ c q g e d. ground (arith, c q g);
        same = λ c q w h o. elim (Option-cases (lookup q s.page_table)) [
          | inl out ↦ ground arith
          | inr (g, held) ↦ ground arith
        ];
      }

  -- The counters show in nothing else.
  counted-Fetched :
      (s : Pool R D) (n p : ℕ) (r : Pool R D × Option ℕ)
      → Fetched (record s { access_count = n }) p r
      → Fetched s p r
  counted-Fetched s n p r t = ground arith

  pub fetch_page_hit :
      (s : Pool R D) (p f : ℕ)
      → p ≢ invalid_page_id
      → lookup p s.page_table ≡ some f
      → fetch_page R D s p
        ≡ (fetch_hit R D (record s { access_count = s.access_count + 1 }) f, some f)
  unfolding fetch_page
  fetch_page_hit s p f i e = ground arith

  pub fetch_page_miss :
      (s : Pool R D) (p : ℕ)
      → p ≢ invalid_page_id
      → lookup p s.page_table ≡ none
      → fetch_page R D s p ≡ fetch_miss R D (record s { access_count = s.access_count + 1 }) p
  unfolding fetch_page
  fetch_page_miss s p i e = ground arith

  fetch_page_invalid : (s : Pool R D) (p : ℕ) → p ≡ invalid_page_id → fetch_page R D s p ≡ (s, none)
  unfolding fetch_page
  fetch_page_invalid s p i = ground arith

  refused-Fetched : (s : Pool R D) (p : ℕ) → IsValid s → Fetched s p (s, none)
  refused-Fetched s p v = ground arith

  -- Fetching a page keeps the invariant, leaves pinned pages in their frames, and changes the
  -- content of no page.
  pub fetch_page-Fetched :
      (s : Pool R D) (p : ℕ) → IsValid s → p < id_limit → Fetched s p (fetch_page R D s p)
  fetch_page-Fetched s p v h =
      let n = s.access_count + 1 in
      let s' : Pool R D = record s { access_count = n } in
      elim (ℕ_discrete p invalid_page_id) [
        | yes i ↦ subst (Fetched s p) (sym (fetch_page_invalid s p i)) (refused-Fetched s p v)
        | no i ↦ elim (Option-cases (lookup p s.page_table)) [
          | inr (f, e) ↦
              subst (Fetched s p) (sym (fetch_page_hit s p f i e))
                (counted-Fetched s n p _ (hit-Fetched s' f p (IsValid-count s n v) e))
          | inl e ↦
              subst (Fetched s p) (sym (fetch_page_miss s p i e))
                (counted-Fetched s n p _ (fetch_miss-Fetched s' p (IsValid-count s n v) e h))
        ]
      ]

  -- The bytes behind the pointer that `FetchPage` returns are the content of the page, where it
  -- had one.
  pub fetch_page-content :
      (s : Pool R D) (p f : ℕ) (c : Bytes)
      → IsValid s
      → IsCoherent s
      → p < id_limit
      → (fetch_page R D s p).1 ≡ some f
      → content s p ≡ some c
      → ((fetch_page R D s p).0.pages f).bytes ≡ c
  fetch_page-content s p f b v c h e held =
      let t = fetch_page-Fetched s p v h in
      let (at, _) = t.found f e in let after = t.same c p b h held in ground (arith, at, after)
