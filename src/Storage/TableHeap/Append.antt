-- ===== src/Storage/TableHeap/Append.antt =====
-- `InsertTuple` of goods_db/src/storage/table/table_heap.cpp over the whole chain: a page takes the tuple, or
-- a new page is put behind the last.
use goods_db.Prelude.{
  ℕ, ◌<◌, ◌≡◌, ◌≢◌, refl, false, List, [], ◌∷◌, ◌++◌, some, none, arith, ◌==◌, Bool-cases,
  Option-cases, ◌⊎◌, inl, inr, ap, sym, ◌∙◌, subst,
}
use mathlib.Core.Option.{some-injective}
use goods_db.Prelude.Members.{member}
use goods_db.Prelude.Bytes.{Bytes}
use goods_db.Disk.{id_limit, invalid_page_id, get_page_no}
use goods_db.Disk.Store.{Store}
use goods_db.Buffer.Replacer.{Replacer}
use goods_db.Buffer.Pool.{Pool, fetch_page}
use goods_db.Buffer.Pool.Content.{content}
use goods_db.Storage.TablePage.{get_next_page_id, set_next_page_id, max_tuple_size}
use goods_db.Storage.TablePage
use goods_db.Storage.TablePage.Valid
use goods_db.Storage.TablePage.Links.{set_next_page_id-Relinked, get_next_page_id-set_next_page_id}
use goods_db.Storage.TableHeap.{Rid}
use goods_db.Storage.TableHeap.Chain.{row, row-some, row-none, Chain, last_of}
use goods_db.Storage.TableHeap.Fill.{Appended}

module _ {R : Replacer} {D : Store} where
  -- A page of a chain.
  pub record Linked (s : Pool R D) (p : ℕ) (m : Bytes) : Type 0 where
    pub low : p < id_limit
    pub real : p ≢ invalid_page_id
    pub numbered : get_page_no p ≢ 0
    pub held : content s p ≡ some m
    pub valid : TablePage.Valid.IsValid m

  -- The last page of a chain names no next one.
  pub Chain-last :
      (s : Pool R D) (q : ℕ) (l : List ℕ)
      → Chain s q (q ∷ l)
      → (m : Bytes) × Linked s (last_of l q) m × (get_next_page_id m ≡ invalid_page_id)
  Chain-last s q [] (here, low, real, numbered, (m, held, valid, rest)) = ground arith
  Chain-last s q (r ∷ l) (here, low, real, numbered, (m, held, valid, rest)) =
      Chain-last s r l (subst (λ x. Chain s x (r ∷ l)) rest.0 rest)

  -- The chain goes on with page `p` where the last page names it.
  module _ (s t : Pool R D) (b p : ℕ) (mb mp m' : Bytes) where
    record Relinks : Type 0 where
      page : Linked t p mp
      ends : get_next_page_id mp ≡ invalid_page_id
      last : content s b ≡ some mb
      stop : get_next_page_id mb ≡ invalid_page_id
      now : content t b ≡ some m'
      now_valid : TablePage.Valid.IsValid m'
      link : get_next_page_id m' ≡ p
      others :
          (q : ℕ) (c : Bytes)
          → q < id_limit
          → get_page_no q ≢ 0
          → p ≢ q
          → b ≢ q
          → content s q ≡ some c
          → content t q ≡ some c

    one_more : Relinks → Chain t p (p ∷ [])
    one_more r = ground arith

    Chain-append :
        (q : ℕ) (l : List ℕ)
        → Relinks
        → last_of l q ≡ b
        → member p (q ∷ l) ≡ false
        → Chain s q (q ∷ l)
        → Chain t q (q ∷ l ++ p ∷ [])
    Chain-append q [] r e out (here, low, real, numbered, (m, held, valid, rest)) = (
      refl,
      low,
      real,
      numbered,
      (
        m',
        subst (λ x. content t x ≡ some m') (sym e) r.now,
        r.now_valid,
        subst (λ x. Chain t x (p ∷ [])) (sym r.link) (one_more r),
      ),
    )
    Chain-append q (k ∷ l) r e out (here, low, real, numbered, (m, held, valid, rest)) =
        elim (Bool-cases (b == q)) [
          | inl same ↦
              let i : b ≡ q = ground arith in
              let m_is : m ≡ mb =
                some-injective m mb (sym held ∙ subst (λ x. content s x ≡ some mb) i r.last) in
              absurd (rest.2 (sym rest.0 ∙ ap get_next_page_id m_is ∙ r.stop))
          | inr other ↦ (
            refl,
            low,
            real,
            numbered,
            (
              m,
              r.others q m low numbered (λ i. ground (arith, out)) (λ i. ground (arith, other))
                  held,
              valid,
              subst (λ x. Chain t x (k ∷ l ++ p ∷ [])) (sym rest.0)
                  (Chain-append k l r e (ground (arith, out))
                    (subst (λ x. Chain s x (k ∷ l)) rest.0 rest)),
            ),
          )
        ]

  -- A chain reads the same where each of its pages does.
  Chain-keep :
      (s t : Pool R D) (p current : ℕ) (l : List ℕ)
      → ((q : ℕ) (c : Bytes)
          → q < id_limit
          → get_page_no q ≢ 0
          → p ≢ q
          → content s q ≡ some c
          → content t q ≡ some c)
      → member p l ≡ false
      → Chain s current l
      → Chain t current l
  Chain-keep s t p current [] h out chain = chain
  Chain-keep s t p current (q ∷ l) h out (here, low, real, numbered, (m, held, valid, rest)) = (
    here,
    low,
    real,
    numbered,
    (
      m,
      h q m low numbered (λ e. ground (arith, out)) held,
      valid,
      Chain-keep s t p (get_next_page_id m) l h (ground (arith, out)) rest,
    ),
  )

  -- The last page is linked to the new one, or it could not be fetched and the chain is as it was.
  pub Appended-Chain :
      (s u t : Pool R D) (q p : ℕ) (l tuple : List ℕ)
      → Chain s q (q ∷ l)
      → member p (q ∷ l) ≡ false
      → Appended s u (last_of l q) p tuple t
      → Chain t q (q ∷ l ++ p ∷ [])
        ⊎ (Chain t q (q ∷ l) × ((fetch_page R D u (last_of l q)).1 ≡ none))
  Appended-Chain s u t q p l tuple chain out a =
      let (mb, last, stop) = Chain-last s q l chain in
      let b = last_of l q in
      let (mp, held, valid, ends, there) = a.page in
      elim (a.last mb last.held) [
        | inl now ↦ inl (
            Chain-append s t b p mb mp (set_next_page_id mb p) q l
              (record {
                page = record {
                  low = a.low;
                  real = a.real;
                  numbered = a.numbered;
                  held = held;
                  valid = valid;
                };
                ends = ends;
                last = last.held;
                stop = stop;
                now = now;
                now_valid = (set_next_page_id-Relinked mb p).valid last.valid;
                link = get_next_page_id-set_next_page_id mb p a.low;
                others = a.others;
              })
              refl out chain)
        | inr (now, refused) ↦ inr (
          Chain-keep s t p q (q ∷ l)
              (λ x c low numbered ne held'. elim (Bool-cases (b == x)) [
                | inr other ↦ a.others x c low numbered ne (λ e. ground (arith, other)) held'
                | inl same ↦
                    let i : b ≡ x = ground arith in
                    subst (λ y. content t y ≡ some mb) i now
                    ∙ sym (subst (λ y. content s y ≡ some mb) i last.held)
                    ∙ held'
              ])
              out chain,
          refused,
        )
      ]

  pub Appended-row :
      (s x t : Pool R D) (prev p : ℕ) (tuple u : List ℕ) (rid : Rid) (m : Bytes)
      → Linked s prev m
      → Appended s x prev p tuple t
      → rid.page_id < id_limit
      → get_page_no rid.page_id ≢ 0
      → p ≢ rid.page_id
      → row s rid ≡ some u
      → row t rid ≡ some u
  Appended-row s x t prev p tuple u rid m last a low numbered ne there =
      elim (Option-cases (content s rid.page_id)) [
        | inl out ↦ absurd (cc (row-none s rid out, there))
        | inr (b, held) ↦ elim (Bool-cases (prev == rid.page_id)) [
          | inr other ↦
              row-some t rid b
                (a.others rid.page_id b low numbered ne (λ e. ground (arith, other)) held)
              ∙ sym (row-some s rid b held)
              ∙ there
          | inl same ↦
              let i : prev ≡ rid.page_id = ground arith in
              let held' : content s rid.page_id ≡ some m =
                subst (λ y. content s y ≡ some m) i last.held in
              let old : TablePage.get_tuple m rid.slot_id ≡ some u =
                sym (row-some s rid m held') ∙ there in
              elim (a.last m last.held) [
                | inl now ↦
                    row-some t rid (set_next_page_id m p)
                      (subst (λ y. content t y ≡ some (set_next_page_id m p)) i now)
                    ∙ (set_next_page_id-Relinked m p).kept rid.slot_id last.valid
                    ∙ old
                | inr (now, refused) ↦
                    row-some t rid m (subst (λ y. content t y ≡ some m) i now) ∙ old
              ]
        ]
      ]
