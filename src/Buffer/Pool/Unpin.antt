-- ===== src/Buffer/Pool/Unpin.antt =====
-- `UnpinPage` of goods_db/src/buffer/buffer_pool_manager.cpp.
use goods_db.Prelude.{
  ℕ, ◌≡◌, ◌≢◌, refl, Bool, true, false, some, arith, ◌==◌, if◌then◌else◌, Bool-cases, Option-cases,
  inl, inr,
}
use goods_db.Prelude.Assoc.{lookup}
use goods_db.Disk.{invalid_page_id}
use goods_db.Disk.Store.{Store}
use goods_db.Buffer.Replacer.{Replacer}
use goods_db.Buffer.Pool.{Pool, update, unpin_frame, unpin_page}
use goods_db.Buffer.Pool.Valid.{IsValid, unpin_frame-IsValid}
use goods_db.Buffer.Pool.Content.{content, IsCoherent}

module _ {R : Replacer} {D : Store} where
  unpin_page_found :
      (s : Pool R D) (p f : ℕ) (d : Bool)
      → p ≢ invalid_page_id
      → lookup p s.page_table ≡ some f
      → unpin_page R D s p d
        ≡ (if (s.pages f).pin_count == 0 then (s, false) else (unpin_frame R D s f d, true))
  unfolding unpin_page
  unpin_page_found s p f d i e = rw (e, unpin_page) (ground arith)

  -- A page that is not there, or not pinned, is left alone.
  unpin_page_cases :
      (P : Pool R D → Type 0) (s : Pool R D) (p : ℕ) (d : Bool)
      → P s
      → ((f : ℕ) → lookup p s.page_table ≡ some f → P (unpin_frame R D s f d))
      → P (unpin_page R D s p d).0
  unfolding unpin_page
  unpin_page_cases P s p d refused done = elim (Bool-cases (p == invalid_page_id)) [
    | inl i ↦ rw i refused
    | inr i ↦ rw i (elim (Option-cases (lookup p s.page_table)) [
      | inl e ↦ rw (e, unpin_page) refused
      | inr (f, e) ↦
          rw (e, unpin_page)
            (elim (Bool-cases ((s.pages f).pin_count == 0)) [
              | inl z ↦ rw z refused
              | inr z ↦ rw z (done f e)
            ])
    ])
  ]

  pub unpin_page-IsValid :
      (s : Pool R D) (p : ℕ) (d : Bool) → IsValid s → IsValid (unpin_page R D s p d).0
  unpin_page-IsValid s p d v =
      unpin_page_cases IsValid s p d v (λ f e. unpin_frame-IsValid s f p d v e)

  pub unpin_page-IsCoherent :
      (s : Pool R D) (p : ℕ) (d : Bool)
      → IsCoherent s
      → IsCoherent (unpin_page R D s p d).0
        × ((q : ℕ) → content (unpin_page R D s p d).0 q ≡ content s q)
  unpin_page-IsCoherent s p d c =
      unpin_page_cases (λ t. IsCoherent t × ((q : ℕ) → content t q ≡ content s q)) s p d
        (c, λ q. refl)
        (λ f e.
          unfold unpin_frame update in
          (
            λ q g k n. ground (arith, c q g),
            λ q. elim (Option-cases (lookup q s.page_table)) [
              | inl out ↦ ground arith
              | inr (g, at) ↦ ground arith
            ],
          ))

  -- Pages stay in their frames, and a mark stays.
  pub unpin_page_stays :
      (s : Pool R D) (p : ℕ) (d : Bool)
      → ((unpin_page R D s p d).0.page_table ≡ s.page_table)
        × ((g : ℕ)
            → (s.pages g).is_dirty ≡ true
            → ((unpin_page R D s p d).0.pages g).is_dirty ≡ true)
  unpin_page_stays s p d =
      unpin_page_cases
        (λ t.
          (t.page_table ≡ s.page_table)
          × ((g : ℕ) → (s.pages g).is_dirty ≡ true → (t.pages g).is_dirty ≡ true))
        s p d (refl, λ g h. h) (λ f e. unfold unpin_frame update in (refl, λ g h. ground arith))
