-- ===== src/Storage/TableHeap/Chain.antt =====
-- The chain of pages of goods_db/src/storage/table/table_heap.cpp, and its rows.
use goods_db.Prelude.{
  ℕ, ◌<◌, ◌≡◌, ◌≢◌, List, [], ◌∷◌, Option, none, some, arith, ◌==◌, Bool-cases, inl, inr, sym,
  subst,
}
use goods_db.Prelude.Bytes.{Bytes}
use goods_db.Disk.{id_limit, invalid_page_id, get_page_no}
use goods_db.Disk.Store.{Store}
use goods_db.Buffer.Replacer.{Replacer}
use goods_db.Buffer.Pool.{Pool}
use goods_db.Buffer.Pool.Content.{content}
use goods_db.Storage.TablePage
use goods_db.Storage.TablePage.{get_next_page_id}
use goods_db.Storage.TablePage.Valid
use goods_db.Storage.TableHeap.{Rid}

-- The last page of a list, or `d`.
abbrev pub last_of : List ℕ → ℕ → ℕ
last_of [] d = d
last_of (p ∷ l) d = last_of l p

module _ {R : Replacer} {D : Store} where
  -- What a reader finds under a row id.
  abbrev pub row : Pool R D → Rid → Option (List ℕ)
  row s rid = elim (content s rid.page_id) [
    | none ↦ none
    | some m ↦ TablePage.get_tuple m rid.slot_id
  ]

  pub row-some :
      (s : Pool R D) (rid : Rid) (m : Bytes)
      → content s rid.page_id ≡ some m
      → row s rid ≡ TablePage.get_tuple m rid.slot_id
  row-some s rid m e = ground arith

  pub row-none : (s : Pool R D) (rid : Rid) → content s rid.page_id ≡ none → row s rid ≡ none
  row-none s rid e = ground arith

  -- The pages from `current` to the end of the chain: each is a valid table page, and no header.
  abbrev pub Chain : Pool R D → ℕ → List ℕ → Type 0
  Chain s current [] = current ≡ invalid_page_id
  Chain s current (p ∷ l) =
      (current ≡ p)
      × (p < id_limit)
      × (p ≢ invalid_page_id)
      × (get_page_no p ≢ 0)
      × ((m : Bytes) × (content s p ≡ some m)
          × TablePage.Valid.IsValid m
          × Chain s (get_next_page_id m) l)

  -- A pool where every page of the chain reads as it did.
  abbrev pub Same : Pool R D → Pool R D → Type 0
  Same s t = (q : ℕ) (c : Bytes) → q < id_limit → content s q ≡ some c → content t q ≡ some c

  -- What has become of page `p` keeps its rows, and the next page.
  pub record Grown (s t : Pool R D) (p : ℕ) : Type 0 where
    pub others :
        (q : ℕ) (c : Bytes) → q < id_limit → p ≢ q → content s q ≡ some c → content t q ≡ some c
    pub page :
        (m : Bytes)
        → content s p ≡ some m
        → (m' : Bytes) × (content t p ≡ some m')
          × TablePage.Valid.IsValid m'
          × (get_next_page_id m' ≡ get_next_page_id m)
          × ((j : ℕ) (u : List ℕ)
              → TablePage.get_tuple m j ≡ some u
              → TablePage.get_tuple m' j ≡ some u)

  pub Chain-Same :
      (s t : Pool R D) (current : ℕ) (l : List ℕ) → Same s t → Chain s current l → Chain t current l
  Chain-Same s t current [] h c = c
  Chain-Same s t current (p ∷ l) h (here, low, real, numbered, (m, held, valid, rest)) = (
    here,
    low,
    real,
    numbered,
    (m, h p m low held, valid, Chain-Same s t (get_next_page_id m) l h rest),
  )

  pub Chain-Grown :
      (s t : Pool R D) (p current : ℕ) (l : List ℕ)
      → Grown s t p
      → Chain s current l
      → Chain t current l
  Chain-Grown s t p current [] g c = c
  Chain-Grown s t p current (q ∷ l) g (here, low, real, numbered, (m, held, valid, rest)) =
      elim (Bool-cases (p == q)) [
        | inl same ↦
            let e : p ≡ q = ground arith in
            let (m', held', valid', link, kept) =
              g.page m (subst (λ k. content s k ≡ some m) (sym e) held) in
            (
              here,
              low,
              real,
              numbered,
              (
                m',
                subst (λ k. content t k ≡ some m') e held',
                valid',
                rw link (Chain-Grown s t p (get_next_page_id m) l g rest),
              ),
            )
        | inr other ↦
            let ne : p ≢ q = λ e. ground (arith, other) in
            (
              here,
              low,
              real,
              numbered,
              (m, g.others q m low ne held, valid, Chain-Grown s t p (get_next_page_id m) l g rest),
            )
      ]
