-- ===== src/Buffer/Pool/NewFrame.antt =====
-- A new page in a frame: the part of `NewPage` of goods_db/src/buffer/buffer_pool_manager.cpp
-- behind the search.
use goods_db.Prelude.{
  ℕ, ◌<◌, ◌≡◌, false, Option, none, some, arith, ◌==◌, Option-cases, inl, inr, sym, subst,
}
use goods_db.Prelude.Assoc.{lookup, lookup-put}
use goods_db.Prelude.Bytes.{zeros}
use goods_db.Disk.{id_limit}
use goods_db.Disk.Store.{Store}
use goods_db.Buffer.Replacer.{Replacer}
use goods_db.Buffer.Pool.{Pool, update, get_free_frame, install, new_frame}
use goods_db.Buffer.Pool.Valid.{IsValid, IsValid-disk, install-IsValid}
use goods_db.Buffer.Pool.Content.{get_free_frame-Freed}

module _ {R : Replacer} {D : Store} where
  -- What a call that makes page `p` leaves behind: the page is pinned and reads as zeros.
  pub record Made (s : Pool R D) (p : ℕ) (r : Pool R D × Option ℕ) : Type 0 where
    pub valid : IsValid r.0
    pub found :
        (f : ℕ)
        → r.1 ≡ some f
        → (lookup p r.0.page_table ≡ some f)
          × ((r.0.pages f).pin_count ≡ 1)
          × ((r.0.pages f).bytes ≡ zeros)
    pub pinned :
        (q g : ℕ)
        → lookup q s.page_table ≡ some g
        → 0 < (s.pages g).pin_count
        → (lookup q r.0.page_table ≡ some g) × (r.0.pages g ≡ s.pages g)

  pub new_frame-none :
      (s : Pool R D) (p : ℕ)
      → (get_free_frame R D s).1 ≡ none
      → new_frame R D s p ≡ (
        record (get_free_frame R D s).0 { disk = D.deallocate (get_free_frame R D s).0.disk p },
        none,
      )
  unfolding new_frame
  new_frame-none s p e = rw (e, new_frame)

  pub new_frame-some :
      (s : Pool R D) (p f : ℕ)
      → (get_free_frame R D s).1 ≡ some f
      → new_frame R D s p ≡ (install R D (get_free_frame R D s).0 f p zeros, some f)
  unfolding new_frame
  new_frame-some s p f e = rw (e, new_frame)

  pub new_frame-Made :
      (s : Pool R D) (p : ℕ)
      → IsValid s
      → lookup p s.page_table ≡ none
      → p < id_limit
      → Made s p (new_frame R D s p)
  new_frame-Made s p v a h =
      let w = get_free_frame-Freed s v in
      let s' : Pool R D = (get_free_frame R D s).0 in
      elim (Option-cases (get_free_frame R D s).1) [
        | inl missed ↦ subst (Made s p) (sym (new_frame-none s p missed)) (record {
          valid = IsValid-disk s' (D.deallocate s'.disk p) w.valid;
          found = λ f e. absurd (cc e);
          pinned = w.pinned;
        })
        | inr (f, found) ↦
            let (vacant, used) = w.frame f found in
            let v' = install-IsValid s' f p zeros w.valid vacant used (w.absent p a) h in
            subst (Made s p) (sym (new_frame-some s p f found)) (
              unfold install update in
              record {
                valid = v';
                found = λ g e.
                    let same : f ≡ g = ground arith in
                    rw (← same) (
                      ground (arith, lookup-put p p f s'.page_table),
                      ground (arith, vacant.unused),
                      ground arith,
                    );
                pinned = λ q g e n.
                    let (stays, page) = w.pinned q g e n in
                    let other : (f == g) ≡ false = ground (arith, vacant.unlisted q) in
                    (ground (arith, lookup-put p q f s'.page_table, w.absent p a), rw other page);
              })
      ]
