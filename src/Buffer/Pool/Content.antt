-- ===== src/Buffer/Pool/Content.antt =====
-- What a reader of the pool sees: the cached copy of a page, or the disk's. Finding a frame, by
-- eviction too, changes none of it.
use goods_db.Prelude.{
  ℕ, ◌<◌, ◌≡◌, false, List, [], ◌∷◌, Option, none, some, arith, ◌==◌, if◌then◌else◌, Bool-cases,
  Option-cases, inl, inr, List-cases, sym, subst,
}
use goods_db.Prelude.Assoc.{lookup, lookup-erase}
use goods_db.Prelude.Bytes.{Bytes}
use goods_db.Disk.{id_limit}
use goods_db.Disk.Store.{Store}
use goods_db.Buffer.Replacer.{Replacer}
use goods_db.Buffer.Pool.{Pool, update, vacate, write_back, evict_page, get_free_frame}
use goods_db.Buffer.Pool.Valid.{IsValid, IsVacant, IsValid-disk}
use goods_db.Prelude.Members.{member}
use goods_db.Buffer.Pool.Frames.{
  IsTaken, after_victim, after_victim-IsValid-none, after_victim-IsValid, vacate-IsValid,
}

module _ {R : Replacer} {D : Store} where
  abbrev pub content : Pool R D → ℕ → Option Bytes
  content s p = elim (lookup p s.page_table) [
    | some f ↦ some (s.pages f).bytes
    | none ↦ D.stored s.disk p
  ]

  pub content_found :
      (s : Pool R D) (p f : ℕ)
      → lookup p s.page_table ≡ some f
      → content s p ≡ some (s.pages f).bytes
  content_found s p f e = ground arith

  -- A clean page is the disk's copy.
  abbrev pub IsCoherent : Pool R D → Type 0
  IsCoherent s =
      (p f : ℕ)
      → lookup p s.page_table ≡ some f
      → (s.pages f).is_dirty ≡ false
      → D.stored s.disk p ≡ some (s.pages f).bytes

  -- What a search for a frame leaves behind.
  pub record Freed (s : Pool R D) (r : Pool R D × Option ℕ) : Type 0 where
    pub valid : IsValid r.0
    pub frame : (f : ℕ) → r.1 ≡ some f → IsVacant r.0 f × (member f r.0.free_list ≡ false)
    pub absent : (q : ℕ) → lookup q s.page_table ≡ none → lookup q r.0.page_table ≡ none
    pub pinned :
        (q g : ℕ)
        → lookup q s.page_table ≡ some g
        → 0 < (s.pages g).pin_count
        → (lookup q r.0.page_table ≡ some g) × (r.0.pages g ≡ s.pages g)
    pub coherent : IsCoherent s → IsCoherent r.0
    pub same :
        IsCoherent s
        → (q : ℕ) (c : Bytes) → q < id_limit
        → content s q ≡ some c
        → content r.0 q ≡ some c

  -- The victim's page is on the disk, by the write back or because it was clean.
  vacate-Freed :
      (s : Pool R D) (f : ℕ) (d : D.State)
      → IsValid s
      → IsTaken s f
      → (IsCoherent s → D.stored d (s.pages f).page_id ≡ some (s.pages f).bytes)
      → (IsCoherent s
          → (q : ℕ) (c : Bytes) → q < id_limit
          → D.stored s.disk q ≡ some c
          → D.stored d q ≡ (if (s.pages f).page_id == q then some (s.pages f).bytes else some c))
      → Freed s (vacate R D (record s { disk = d }) f, some f)
  vacate-Freed s f d v t on_disk others =
      let s' : Pool R D = record s { disk = d } in
      let taken : IsTaken s' f = record {
        idle = t.idle;
        listed = t.listed;
        withheld = t.withheld;
      } in
      let (valid', vacant, used) = vacate-IsValid s' f (IsValid-disk s d v) taken in
      let p = (s.pages f).page_id in
      unfold vacate update in
      record {
        valid = valid';
        frame = λ g e. let e' : f ≡ g = ground arith in rw (← e') (vacant, used);
        absent = λ q e. ground (arith, lookup-erase p q s.page_table);
        pinned = λ q g e n. (
          ground (arith, lookup-erase p q s.page_table, v.resident q g e, t.idle, t.listed),
          ground (arith, t.idle),
        );
        coherent = λ c q g e k. ground (
          arith,
          lookup-erase p q s.page_table,
          c q g,
          v.resident q g,
          v.resident p f t.listed,
          others c q (s.pages g).bytes,
        );
        same = λ c q b h e. elim (Bool-cases (p == q)) [
          | inl this ↦
              let p≡q : p ≡ q = ground arith in
              ground (arith, lookup-erase p q s.page_table, t.listed, on_disk c)
          | inr other ↦ elim (Option-cases (lookup q s.page_table)) [
            | inl out ↦ ground (arith, lookup-erase p q s.page_table, others c q b)
            | inr (g, at) ↦ ground (arith, lookup-erase p q s.page_table, v.resident q g)
          ]
        ];
      }

  -- A search that finds no frame changes at most the policy.
  idle-Freed :
      (s : Pool R D) (r : R.State)
      → IsValid (record s { replacer = r })
      → Freed s (record s { replacer = r }, none)
  idle-Freed s r v = ground arith

  write_back-Freed : (s : Pool R D) (f : ℕ) → IsValid s → IsTaken s f → Freed s (write_back R D s f)
  unfolding write_back
  write_back-Freed s f v t = elim (Bool-cases (s.pages f).is_dirty) [
    | inr clean ↦ rw clean (
        vacate-Freed s f s.disk v t (λ c. c (s.pages f).page_id f t.listed clean)
          (λ c q b h e. ground (arith, c (s.pages f).page_id f t.listed clean)))
    | inl dirty ↦
        rw dirty (elim (Option-cases (D.write s.disk (s.pages f).page_id (s.pages f).bytes)) [
          | inl failed ↦ rw (failed, write_back) (idle-Freed s s.replacer v)
          | inr (d, done) ↦
              rw (done, write_back)
                (vacate-Freed s f d v t
                  (λ c. D.stored-write_self s.disk d (s.pages f).page_id (s.pages f).bytes done)
                  (λ _ q c h e.
                    D.stored-write s.disk d (s.pages f).page_id q (s.pages f).bytes c
                      (v.resident (s.pages f).page_id f t.listed).1 h done e))
        ])
  ]

  -- `Freed` does not see that the policy was asked.
  asked-Freed : (s : Pool R D) (r : Pool R D × Option ℕ) → Freed (after_victim s) r → Freed s r
  asked-Freed s r w = ground arith

  evict_page-Freed : (s : Pool R D) → IsValid s → Freed s (evict_page R D s)
  unfolding evict_page
  evict_page-Freed s v = elim (Option-cases (R.victim s.replacer).1) [
    | inl missed ↦
        rw (missed, evict_page)
          (idle-Freed s (R.victim s.replacer).0 (after_victim-IsValid-none s v missed))
    | inr (f, found) ↦
        rw (found, evict_page)
          (let (v', t) = after_victim-IsValid s f v found in
            asked-Freed s _ (write_back-Freed (after_victim s) f v' t))
  ]

  take_free-Freed :
      (s : Pool R D) (f : ℕ) (rest : List ℕ)
      → IsValid s
      → s.free_list ≡ f ∷ rest
      → Freed s (record s { free_list = rest }, some f)
  take_free-Freed s f rest v e = ground arith

  free_frame_none : (s : Pool R D) → s.free_list ≡ [] → get_free_frame R D s ≡ evict_page R D s
  unfolding get_free_frame
  free_frame_none s e = ground arith

  free_frame_some :
      (s : Pool R D) (f : ℕ) (rest : List ℕ)
      → s.free_list ≡ f ∷ rest
      → get_free_frame R D s ≡ (record s { free_list = rest }, some f)
  unfolding get_free_frame
  free_frame_some s f rest e = ground arith

  -- Whether it takes a free frame or evicts a page, the search keeps the invariant, leaves pinned
  -- pages where they are, and changes no page's content.
  pub get_free_frame-Freed : (s : Pool R D) → IsValid s → Freed s (get_free_frame R D s)
  get_free_frame-Freed s v = elim (List-cases s.free_list) [
    | inl e ↦ subst (Freed s) (sym (free_frame_none s e)) (evict_page-Freed s v)
    | inr (f, rest, e) ↦
        subst (Freed s) (sym (free_frame_some s f rest e)) (take_free-Freed s f rest v e)
  ]
