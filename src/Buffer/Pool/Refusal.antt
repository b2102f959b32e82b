-- ===== src/Buffer/Pool/Refusal.antt =====
-- When `FetchPage` of goods_db/src/buffer/buffer_pool_manager.cpp refuses a page that it could
-- read.
use goods_db.Prelude.{
  ℕ, ◌+◌, ◌<◌, ◌≡◌, ◌≢◌, refl, [], none, some, arith, Bool-cases, Option-cases, List-cases, inl,
  inr, sym, ap, ◌∙◌,
}
use goods_db.Prelude.Assoc.{lookup}
use goods_db.Prelude.Bytes.{Bytes}
use goods_db.Disk.{id_limit, invalid_page_id}
use goods_db.Disk.Store.{Store}
use goods_db.Buffer.Replacer.{Replacer}
use goods_db.Buffer.Pool.{
  Pool, vacate, write_back, evict_page, get_free_frame, load, fetch_miss, fetch_page,
}
use goods_db.Buffer.Pool.Valid.{IsValid, IsValid-count}
use goods_db.Buffer.Pool.Content.{content, IsCoherent, get_free_frame-Freed}
use goods_db.Buffer.Pool.Fetch.{fetch_miss-none, fetch_page_hit, fetch_page_miss}

module _ {R : Replacer} {D : Store} where
  write_back-free_list : (s : Pool R D) (f : ℕ) → (write_back R D s f).0.free_list ≡ s.free_list
  unfolding write_back vacate
  write_back-free_list s f = elim (Bool-cases (s.pages f).is_dirty) [
    | inr clean ↦ rw clean refl
    | inl dirty ↦
        rw dirty (elim (Option-cases (D.write s.disk (s.pages f).page_id (s.pages f).bytes)) [
          | inl failed ↦ rw (failed, write_back) refl
          | inr (d, done) ↦ rw (done, write_back) refl
        ])
  ]

  evict_page-free_list : (s : Pool R D) → (evict_page R D s).0.free_list ≡ s.free_list
  unfolding evict_page
  evict_page-free_list s = elim (Option-cases (R.victim s.replacer).1) [
    | inl missed ↦ rw (missed, evict_page) refl
    | inr (f, found) ↦
        rw (found, evict_page)
          (write_back-free_list (record s { replacer = (R.victim s.replacer).0 }) f)
  ]

  -- A search fails only where no frame is free.
  get_free_frame-free_list :
      (s : Pool R D) → (get_free_frame R D s).1 ≡ none → (get_free_frame R D s).0.free_list ≡ []
  unfolding get_free_frame
  get_free_frame-free_list s h = elim (List-cases s.free_list) [
    | inl e ↦
        let eq : get_free_frame R D s ≡ evict_page R D s = ground arith in
        ap (λ r. r.0.free_list) eq ∙ evict_page-free_list s ∙ e
    | inr (f, rest, e) ↦
        let eq : get_free_frame R D s ≡ (record s { free_list = rest }, some f) = ground arith in
        absurd (cc (eq, h))
  ]

  fetch_miss-load :
      (s : Pool R D) (p f : ℕ) (c : Bytes)
      → (get_free_frame R D s).1 ≡ some f
      → D.stored (get_free_frame R D s).0.disk p ≡ some c
      → (fetch_miss R D s p).1 ≡ some f
  unfolding fetch_miss load
  fetch_miss-load s p f c e held =
      let s' : Pool R D = (get_free_frame R D s).0 in
      rw (e, fetch_miss) (rw (D.read-stored s'.disk p (s'.pages f).bytes c held) refl)

  fetch_miss_refused :
      (s : Pool R D) (p : ℕ) (c : Bytes)
      → IsValid s
      → IsCoherent s
      → p < id_limit
      → lookup p s.page_table ≡ none
      → content s p ≡ some c
      → (fetch_miss R D s p).1 ≡ none
      → (fetch_miss R D s p).0.free_list ≡ []
  fetch_miss_refused s p c v k low out held h =
      let w = get_free_frame-Freed s v in
      let s' : Pool R D = (get_free_frame R D s).0 in
      elim (Option-cases (get_free_frame R D s).1) [
        | inl missed ↦
            ap (λ r. r.0.free_list) (fetch_miss-none s p missed) ∙ get_free_frame-free_list s missed
        | inr (f, found) ↦
            let still : D.stored s'.disk p ≡ some c =
              ground (arith, w.same k p c low held, w.absent p out) in
            absurd (cc (fetch_miss-load s p f c found still, h))
      ]

  -- On a valid and coherent pool, a page of a file that the pool or the disk has is refused only
  -- where no frame is free.
  pub fetch_page_refused :
      (s : Pool R D) (p : ℕ) (c : Bytes)
      → IsValid s
      → IsCoherent s
      → p < id_limit
      → p ≢ invalid_page_id
      → content s p ≡ some c
      → (fetch_page R D s p).1 ≡ none
      → (fetch_page R D s p).0.free_list ≡ []
  fetch_page_refused s p c v k low real held h = elim (Option-cases (lookup p s.page_table)) [
    | inr (f, at) ↦ absurd (cc (fetch_page_hit s p f real at, h))
    | inl out ↦
        let eq = fetch_page_miss s p real out in
        ap (λ r. r.0.free_list) eq
        ∙ fetch_miss_refused (record s { access_count = s.access_count + 1 }) p c
            (IsValid-count s (s.access_count + 1) v) k low out held (sym (ap (λ r. r.1) eq) ∙ h)
  ]
