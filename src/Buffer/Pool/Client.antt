-- ===== src/Buffer/Pool/Client.antt =====
-- `NewPage` and `DeletePage` of goods_db/src/buffer/buffer_pool_manager.cpp.
use goods_db.Prelude.{
  ℕ, ◌<◌, ◌≡◌, ◌≢◌, true, false, none, some, arith, ◌==◌, if◌then◌else◌, Bool-cases, Option-cases,
  inl, inr,
}
use native.Mathlib.Decide.{ℕ_discrete}
use goods_db.Prelude.Assoc.{lookup, lookup-erase}
use goods_db.Prelude.Bytes.{zeros}
use goods_db.Disk.{invalid_page_id}
use goods_db.Disk.Store.{Store}
use goods_db.Buffer.Replacer.{Replacer}
use goods_db.Buffer.Pool.{Pool, new_frame, new_page, delete_frame, delete_page}
use goods_db.Buffer.Pool.Valid.{IsValid, IsValid-disk, delete_frame-IsValid}
use goods_db.Buffer.Pool.NewFrame.{new_frame-Made}

module _ {R : Replacer} {D : Store} where
  -- The page that `NewPage` asks of the disk is not in the pool: the disk gives out free pages.
  abbrev pub IsFresh : Pool R D → ℕ → Type 0
  IsFresh s file = lookup (D.allocate s.disk file).1 s.page_table ≡ none

  pub new_page_invalid :
      (s : Pool R D) (file : ℕ)
      → (D.allocate s.disk file).1 ≡ invalid_page_id
      → new_page R D s file ≡ (record s { disk = (D.allocate s.disk file).0 }, none)
  unfolding new_page
  new_page_invalid s file i = ground arith

  pub new_page_made :
      (s : Pool R D) (file : ℕ)
      → (D.allocate s.disk file).1 ≢ invalid_page_id
      → let r =
          new_frame R D
            (record s { disk = (D.allocate s.disk file).0 })
            (D.allocate s.disk file).1 in
        new_page R D s file
        ≡ (r.0, elim r.1 [ none ↦ none | some f ↦ some ((D.allocate s.disk file).1, f) ])
  unfolding new_page
  new_page_made s file i = ground arith

  -- `NewPage` keeps the invariant.
  pub new_page-IsValid :
      (s : Pool R D) (file : ℕ) → IsValid s → IsFresh s file → IsValid (new_page R D s file).0
  new_page-IsValid s file v fresh =
      let d = (D.allocate s.disk file).0 in
      let p = (D.allocate s.disk file).1 in
      let v' = IsValid-disk s d v in
      elim (ℕ_discrete p invalid_page_id) [
        | yes i ↦ rw (new_page_invalid s file i) v'
        | no i ↦
            rw (new_page_made s file i)
              (new_frame-Made (record s { disk = d }) p v' fresh (D.allocate-lt s.disk file)).valid
      ]

  -- On a valid pool, where the disk gives out a page that the pool does not hold, a page that
  -- `NewPage` returns is in the pool, pinned once, and reads as zeros.
  pub new_page-zeros :
      (s : Pool R D) (file p f : ℕ)
      → IsValid s
      → IsFresh s file
      → (new_page R D s file).1 ≡ some (p, f)
      → (lookup p (new_page R D s file).0.page_table ≡ some f)
        × (((new_page R D s file).0.pages f).pin_count ≡ 1)
        × (((new_page R D s file).0.pages f).bytes ≡ zeros)
  new_page-zeros s file p f v fresh e =
      let d = (D.allocate s.disk file).0 in
      let q = (D.allocate s.disk file).1 in
      elim (ℕ_discrete q invalid_page_id) [
        | yes i ↦ absurd (cc (new_page_invalid s file i))
        | no i ↦
            let m =
              new_frame-Made (record s { disk = d }) q (IsValid-disk s d v) fresh
                (D.allocate-lt s.disk file) in
            let eq = new_page_made s file i in
            elim (Option-cases (new_frame R D (record s { disk = d }) q).1) [
              | inl missed ↦ absurd (ground (arith, eq))
              | inr (g, got) ↦
                  let same : g ≡ f = ground (arith, eq) in
                  let id : q ≡ p = ground (arith, eq) in
                  let got' = rw same at got in rw (eq, ← id) (m.found f got')
            ]
      ]

  delete_page_found :
      (s : Pool R D) (p f : ℕ)
      → p ≢ invalid_page_id
      → lookup p s.page_table ≡ some f
      → delete_page R D s p ≡ (
          if (s.pages f).pin_count == 0
          then (
            record (delete_frame R D s p f) { disk = D.deallocate (delete_frame R D s p f).disk p },
            true,
          )
          else (s, false))
  unfolding delete_page
  delete_page_found s p f i e = rw (e, delete_page) (ground arith)

  delete_page_absent :
      (s : Pool R D) (p : ℕ)
      → p ≢ invalid_page_id
      → lookup p s.page_table ≡ none
      → delete_page R D s p ≡ (record s { disk = D.deallocate s.disk p }, true)
  unfolding delete_page
  delete_page_absent s p i e = rw (e, delete_page) (ground arith)

  delete_page_invalid :
      (s : Pool R D) (p : ℕ) → p ≡ invalid_page_id → delete_page R D s p ≡ (s, false)
  unfolding delete_page
  delete_page_invalid s p i = ground arith

  -- A pinned page is not deleted.
  pub delete_page_pinned :
      (s : Pool R D) (p f : ℕ)
      → lookup p s.page_table ≡ some f
      → 0 < (s.pages f).pin_count
      → delete_page R D s p ≡ (s, false)
  delete_page_pinned s p f at n = elim (ℕ_discrete p invalid_page_id) [
    | yes i ↦ delete_page_invalid s p i
    | no i ↦ rw (delete_page_found s p f i at) (ground arith)
  ]

  -- `DeletePage` keeps the invariant.
  pub delete_page-IsValid : (s : Pool R D) (p : ℕ) → IsValid s → IsValid (delete_page R D s p).0
  delete_page-IsValid s p v = elim (ℕ_discrete p invalid_page_id) [
    | yes i ↦ rw (delete_page_invalid s p i) v
    | no i ↦ elim (Option-cases (lookup p s.page_table)) [
      | inl out ↦ rw (delete_page_absent s p i out) (IsValid-disk s (D.deallocate s.disk p) v)
      | inr (f, at) ↦
          rw (delete_page_found s p f i at) (elim (Bool-cases ((s.pages f).pin_count == 0)) [
            | inl z ↦
                let t = delete_frame R D s p f in
                rw z (
                  IsValid-disk t (D.deallocate t.disk p)
                    (delete_frame-IsValid s f p v at (ground arith)))
            | inr z ↦ rw z v
          ])
    ]
  ]

  -- After a `DeletePage` that succeeds, the pool does not hold the page.
  pub delete_page_gone :
      (s : Pool R D) (p : ℕ)
      → (delete_page R D s p).1 ≡ true
      → lookup p (delete_page R D s p).0.page_table ≡ none
  delete_page_gone s p e = elim (ℕ_discrete p invalid_page_id) [
    | yes i ↦ absurd (cc (delete_page_invalid s p i))
    | no i ↦ elim (Option-cases (lookup p s.page_table)) [
      | inl out ↦ rw (delete_page_absent s p i out) out
      | inr (f, at) ↦
          let eq = delete_page_found s p f i at in
          elim (Bool-cases ((s.pages f).pin_count == 0)) [
            | inl z ↦
                rw (eq, z) (unfold delete_frame in ground (arith, lookup-erase p p s.page_table))
            | inr z ↦ absurd (ground (arith, eq))
          ]
    ]
  ]
