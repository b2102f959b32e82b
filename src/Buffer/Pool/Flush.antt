-- ===== src/Buffer/Pool/Flush.antt =====
-- `FlushPage`, `FlushAllPages` and `FlushFilePages`: what is on the disk afterwards.
use goods_db.Prelude.{
  ℕ, ◌<◌, ◌≡◌, ◌≢◌, refl, Bool, true, false, List, [], ◌∷◌, none, some, arith, ◌==◌, if◌then◌else◌,
  Bool-cases, Option-cases, inl, inr, sym, subst, ◌∙◌, ap,
}
use native.Mathlib.Decide.{ℕ_discrete}
use goods_db.Prelude.Assoc.{lookup, Distinct}
use goods_db.Disk.{id_limit, invalid_page_id, get_file_id}
use goods_db.Disk.Store.{Store, Accepts}
use goods_db.Buffer.Replacer.{Replacer}
use goods_db.Buffer.Pool.{
  Pool, clear_dirty, flush_page, flush_entry, flush_entries, flush_all_pages,
}
use goods_db.Buffer.Pool.Valid.{IsValid}
use goods_db.Buffer.Pool.Content.{content, content_found, IsCoherent}
use goods_db.Buffer.Pool.FlushEntry.{Flushing, flush_entry-Flushing, chain-Flushing}

module _ {R : Replacer} {D : Store} (A : Accepts D) where
  -- The entries of the loop, each of them in the page table.
  abbrev Listed : Pool R D → List (ℕ × ℕ) → Type 0
  Listed s [] = Unit {0}
  Listed s ((p, f) ∷ l) = (lookup p s.page_table ≡ some f) × A.IsKnown p × Listed s l

  Listed-table :
      (s t : Pool R D) (l : List (ℕ × ℕ)) → t.page_table ≡ s.page_table → Listed s l → Listed t l
  Listed-table s t [] e h = tt
  Listed-table s t ((p, f) ∷ l) e (at, known, h) =
      (ap (lookup p) e ∙ at, known, Listed-table s t l e h)

  flush_entries-Flushing :
      (l : List (ℕ × ℕ)) (s : Pool R D)
      → A.IsGood s.disk
      → IsValid s
      → IsCoherent s
      → Listed s l
      → Flushing A s (flush_entries R D l s)
        × ((p f : ℕ) → lookup p l ≡ some f → ((flush_entries R D l s).pages f).is_dirty ≡ false)
  unfolding flush_entries lookup
  flush_entries-Flushing [] s ok v c h = ground arith
  flush_entries-Flushing ((q, g) ∷ l) s ok v c (at, known, h) =
      let (a, clean) = flush_entry-Flushing A s q g ok known v c at in
      let t : Pool R D = flush_entry R D s (q, g) in
      let (b, rest) =
        flush_entries-Flushing l t a.good a.valid a.coherent (Listed-table s t l a.table h) in
      (
        chain-Flushing A s t (flush_entries R D l t) a b,
        λ p f e. elim (Bool-cases (q == p)) [
          | inl same ↦ let g≡f : g ≡ f = ground arith in b.still_clean f (rw (← g≡f) clean)
          | inr other ↦ rest p f (rw other at e)
        ],
      )

  Listed-Distinct :
      (s : Pool R D) (l : List (ℕ × ℕ))
      → Distinct l
      → ((p f : ℕ) → lookup p l ≡ some f → (lookup p s.page_table ≡ some f) × A.IsKnown p)
      → Listed s l
  unfolding lookup
  Listed-Distinct s [] d h = tt
  Listed-Distinct s ((p, f) ∷ l) (new, d) h = (
    (h p f (ground arith)).0,
    (h p f (ground arith)).1,
    Listed-Distinct s l d (λ q g e. h q g (elim (Bool-cases (p == q)) [
      | inl same ↦
          let p≡q : p ≡ q = ground arith in absurd (cc (subst (λ k. lookup k l ≡ none) p≡q new))
      | inr other ↦ rw other e
    ])),
  )

  flush_all_pages-Flushing :
      (s : Pool R D)
      → A.IsGood s.disk
      → IsValid s
      → IsCoherent s
      → ((p f : ℕ) → lookup p s.page_table ≡ some f → A.IsKnown p)
      → Flushing A s (flush_all_pages R D s)
        × ((p f : ℕ)
            → lookup p s.page_table ≡ some f
            → ((flush_all_pages R D s).pages f).is_dirty ≡ false)
  unfolding flush_all_pages
  flush_all_pages-Flushing s ok v c known =
      flush_entries-Flushing s.page_table s ok v c
        (Listed-Distinct s s.page_table v.keys (λ p f e. (e, known p f e)))

  -- From a disk that takes writes of the pages of the pool, and goes on to take them, `FlushAllPages`
  -- on a valid pool whose clean frames agree with the disk leaves every page of the pool on the disk, with the bytes of its frame.
  pub flush_all_pages_durable :
      (s : Pool R D) (p f : ℕ)
      → A.IsGood s.disk
      → IsValid s
      → IsCoherent s
      → ((q g : ℕ) → lookup q s.page_table ≡ some g → A.IsKnown q)
      → lookup p s.page_table ≡ some f
      → D.stored (flush_all_pages R D s).disk p ≡ some (s.pages f).bytes
  flush_all_pages_durable s p f ok v c known at =
      let (a, clean) = flush_all_pages-Flushing s ok v c known in
      a.coherent p f (ap (lookup p) a.table ∙ at) (clean p f at) ∙ ap some (a.bytes f)

module _ {R : Replacer} {D : Store} where
  flush_page_found :
      (s : Pool R D) (p f : ℕ) (sync : Bool)
      → p ≢ invalid_page_id
      → lookup p s.page_table ≡ some f
      → flush_page R D s p sync ≡ (
          if (s.pages f).is_dirty
          then elim (D.write s.disk p (s.pages f).bytes) [
            | none ↦ (s, false)
            | some d ↦ (
              record (clear_dirty R D s f) { disk = if sync then D.sync d (get_file_id p) else d },
              true,
            )
          ]
          else (s, true))
  unfolding flush_page
  flush_page_found s p f sync i e = rw (e, flush_page) (ground arith)

  -- When `FlushPage` succeeds on a valid pool whose clean frames agree with the disk, the disk holds
  -- the page as a reader of the pool saw it before the call.
  pub flush_page_durable :
      (s : Pool R D) (p : ℕ) (sync : Bool)
      → IsValid s
      → IsCoherent s
      → p < id_limit
      → (flush_page R D s p sync).1 ≡ true
      → D.stored (flush_page R D s p sync).0.disk p ≡ content s p
  flush_page_durable s p sync v c h e = elim (ℕ_discrete p invalid_page_id) [
    | yes i ↦ absurd (unfold flush_page in ground arith)
    | no i ↦ elim (Option-cases (lookup p s.page_table)) [
      | inl out ↦ absurd (unfold flush_page in ground arith)
      | inr (f, at) ↦
          let eq = flush_page_found s p f sync i at in
          elim (Bool-cases (s.pages f).is_dirty) [
            | inr clean ↦ rw (eq, clean) (c p f at clean ∙ sym (content_found s p f at))
            | inl dirty ↦ elim (Option-cases (D.write s.disk p (s.pages f).bytes)) [
              | inl failed ↦ absurd (ground (arith, eq))
              | inr (d, done) ↦
                  rw (eq, dirty, done)
                    (synced d (get_file_id p) sync p
                      ∙ D.stored-write_self s.disk d p (s.pages f).bytes done
                      ∙ sym (content_found s p f at))
            ]
          ]
    ]
  ]
    where
      synced :
          (d : D.State) (file : ℕ) (b : Bool) (q : ℕ)
          → D.stored (if b then D.sync d file else d) q ≡ D.stored d q
      synced d file true q = D.stored-sync d file q
      synced d file false q = refl
