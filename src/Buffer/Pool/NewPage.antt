-- ===== src/Buffer/Pool/NewPage.antt =====
-- `NewPage` of goods_db/src/buffer/buffer_pool_manager.cpp beside the pages that the pool and
-- the disk hold.
use goods_db.Prelude.{
  ℕ, ◌<◌, ◌≡◌, ◌≢◌, false, Option, none, some, arith, Option-cases, inl, inr, sym, subst, ap, ◌∙◌,
}
use native.Mathlib.Decide.{ℕ_discrete}
use goods_db.Prelude.Assoc.{lookup, lookup-put}
use goods_db.Prelude.Bytes.{Bytes, zeros}
use goods_db.Disk.{id_limit, invalid_page_id, get_page_no}
use goods_db.Disk.Store.{Store}
use goods_db.Buffer.Replacer.{Replacer}
use goods_db.Buffer.Pool.{Pool, update, get_free_frame, install, new_frame, new_page}
use goods_db.Buffer.Pool.Valid.{IsValid, IsVacant, IsValid-disk}
use goods_db.Buffer.Pool.Content.{content, IsCoherent, get_free_frame-Freed}
use goods_db.Buffer.Pool.NewFrame.{new_frame-none, new_frame-some}
use goods_db.Buffer.Pool.Client.{
  IsFresh, new_page_invalid, new_page_made, new_page-IsValid, new_page-zeros,
}

module _ {R : Replacer} {D : Store} where
  -- The disk gives out a data page that the pool does not hold, and keeps the other data pages;
  -- the pool holds no header.
  pub record IsSpared (s : Pool R D) (file : ℕ) : Type 0 where
    pub fresh : IsFresh s file
    pub kept :
        (q : ℕ) (c : Bytes)
        → q < id_limit
        → get_page_no q ≢ 0
        → (D.allocate s.disk file).1 ≢ q
        → D.stored s.disk q ≡ some c
        → D.stored (D.allocate s.disk file).0 q ≡ some c
    pub numbered : get_page_no (D.allocate s.disk file).1 ≢ 0
    pub cached : (q f : ℕ) → lookup q s.page_table ≡ some f → get_page_no q ≢ 0

  -- A pool that is coherent but for page `p`.
  abbrev pub IsCoherentBut : ℕ → Pool R D → Type 0
  IsCoherentBut p s =
      (q g : ℕ)
      → p ≢ q
      → lookup q s.page_table ≡ some g
      → (s.pages g).is_dirty ≡ false
      → D.stored s.disk q ≡ some (s.pages g).bytes

  -- The pages but `p` read as they did.
  abbrev pub SameBut : ℕ → Pool R D → Pool R D → Type 0
  SameBut p s t =
      (q : ℕ) (c : Bytes)
      → q < id_limit
      → get_page_no q ≢ 0
      → p ≢ q
      → content s q ≡ some c
      → content t q ≡ some c

  install-SameBut :
      (s : Pool R D) (f p : ℕ)
      → IsVacant s f
      → IsCoherent s
      → IsCoherentBut p (install R D s f p zeros) × SameBut p s (install R D s f p zeros)
  unfolding install update
  install-SameBut s f p e c = (
    λ q g ne k d. ground (arith, lookup-put p q f s.page_table, c q g, e.unlisted q),
    λ q b l nh ne o. elim (Option-cases (lookup q s.page_table)) [
      | inl out ↦ ground (arith, lookup-put p q f s.page_table)
      | inr (g, at) ↦ ground (arith, lookup-put p q f s.page_table, e.unlisted q)
    ],
  )

  -- The allocation alone.
  module _ (s : Pool R D) (file : ℕ) where
    abbrev allocated : Pool R D
    allocated = record s { disk = (D.allocate s.disk file).0 }

    allocated-IsCoherent : IsValid s → IsCoherent s → IsSpared s file → IsCoherent allocated
    allocated-IsCoherent v c a q g k clean =
        a.kept q (s.pages g).bytes (v.resident q g k).1 (a.cached q g k)
          (λ e.
            let i : lookup q s.page_table ≡ none =
              subst (λ x. lookup x s.page_table ≡ none) e a.fresh in
            cc (i, k))
          (c q g k clean)

    allocated-SameBut : IsSpared s file → SameBut (D.allocate s.disk file).1 s allocated
    allocated-SameBut a q b l nh ne o = ground (arith, a.kept q b l nh ne)

  -- What a `NewPage` that gives page `p` in frame `f` leaves behind.
  pub record MadePage (s : Pool R D) (p f : ℕ) (t : Pool R D) : Type 0 where
    pub valid : IsValid t
    pub at : lookup p t.page_table ≡ some f
    pub real : p ≢ invalid_page_id
    pub low : p < id_limit
    pub numbered : get_page_no p ≢ 0
    pub coherent : IsCoherentBut p t
    pub same : SameBut p s t

  new_frame-SameBut :
      (s : Pool R D) (p f : ℕ)
      → IsValid s
      → IsCoherent s
      → (new_frame R D s p).1 ≡ some f
      → IsCoherentBut p (new_frame R D s p).0 × SameBut p s (new_frame R D s p).0
  new_frame-SameBut s p f v c e =
      let w = get_free_frame-Freed s v in
      let s' : Pool R D = (get_free_frame R D s).0 in
      elim (Option-cases (get_free_frame R D s).1) [
        | inl missed ↦ absurd (cc (e, new_frame-none s p missed))
        | inr (g, found) ↦
            let (vacant, used) = w.frame g found in
            let (a, b) = install-SameBut s' g p vacant (w.coherent c) in
            subst {A = Pool R D × Option ℕ} (λ r. IsCoherentBut p r.0 × SameBut p s r.0)
              (sym (new_frame-some s p g found))
              (a, λ q x l nh ne o. b q x l nh ne (w.same c q x l o))
      ]

  pub new_page-MadePage :
      (s : Pool R D) (file p f : ℕ)
      → IsValid s
      → IsCoherent s
      → IsSpared s file
      → (new_page R D s file).1 ≡ some (p, f)
      → MadePage s p f (new_page R D s file).0
  new_page-MadePage s file p f v c a e =
      elim (ℕ_discrete (D.allocate s.disk file).1 invalid_page_id) [
        | yes i ↦ absurd (cc (new_page_invalid s file i, e))
        | no i ↦
            elim (Option-cases (new_frame R D (allocated s file) (D.allocate s.disk file).1).1) [
              | inl missed ↦ absurd (ground (arith, new_page_made s file i))
              | inr (g, got) ↦
                  let id : (D.allocate s.disk file).1 ≡ p =
                    ground (arith, new_page_made s file i) in
                  let (but, same) =
                    new_frame-SameBut (allocated s file) (D.allocate s.disk file).1 g
                      (IsValid-disk s (D.allocate s.disk file).0 v)
                      (allocated-IsCoherent s file v c a) got in
                  let eq : (new_page R D s file).0
                      ≡ (new_frame R D (allocated s file) (D.allocate s.disk file).1).0 =
                    ap (λ r. r.0) (new_page_made s file i) in
                  record {
                    valid = new_page-IsValid s file v a.fresh;
                    at = (new_page-zeros s file p f v a.fresh e).0;
                    real = λ k. i (id ∙ k);
                    low = subst (λ x. x < id_limit) id (D.allocate-lt s.disk file);
                    numbered = subst (λ x. get_page_no x ≢ 0) id a.numbered;
                    coherent = rw (eq, ← id) but;
                    same =
                        rw (eq, ← id)
                          (λ q x l nh ne o.
                            same q x l nh ne (allocated-SameBut s file a q x l nh ne o));
                  }
            ]
      ]
