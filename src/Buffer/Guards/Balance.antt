-- ===== src/Buffer/Guards/Balance.antt =====
-- The guards that are alive account for every pin of the pool.
use goods_db.Prelude.{
  ℕ, ◌+◌, ◌<◌, ◌≡◌, ◌≢◌, refl, Bool, false, List, [], ◌∷◌, ◌++◌, none, some, arith, ◌==◌,
  if◌then◌else◌, Bool-cases, Option-cases, inl, inr, ap, sym, ◌∙◌, subst,
}
use goods_db.Prelude.Assoc.{lookup}
use goods_db.Disk.{id_limit, invalid_page_id}
use goods_db.Disk.Store.{Store}
use goods_db.Buffer.Replacer.{Replacer}
use goods_db.Buffer.Pool.{Pool, fetch_page, unpin_page}
use goods_db.Buffer.Pool.Valid.{IsValid}
use goods_db.Buffer.Pool.Fetch.{fetch_page-Fetched}
use goods_db.Buffer.Pool.Unpin.{unpin_page-IsValid}
use goods_db.Buffer.Guards.{PageGuard, drop}
use goods_db.Buffer.Guards.Pins.{pins, bump, fetch_page-pins, unpin_page-pins}

-- How many of the frames of the guards are `g`.
abbrev pub holders : ℕ → List ℕ → ℕ
holders g [] = 0
holders g (f ∷ l) = if f == g then holders g l + 1 else holders g l

holders-remove :
    (g f : ℕ) (l r : List ℕ)
    → holders g (l ++ f ∷ r) ≡ (if f == g then holders g (l ++ r) + 1 else holders g (l ++ r))
holders-remove g f [] r = refl
holders-remove g f (x ∷ l) r = ground (arith, holders-remove g f l r)

abbrev pub guard_of : Bool → ℕ → PageGuard
guard_of writes f = record { writes = writes; page = some f }

module _ {R : Replacer} {D : Store} where
  -- A pool, and the frames of the guards that are alive: pages are fetched into guards, and guards are
  -- dropped, in any order.
  pub data Alive (s : Pool R D) : Pool R D → List ℕ → Type 0 where
    start : Alive s s []
    fetched :
        {t : Pool R D} {l : List ℕ} (p f : ℕ)
        → Alive s t l
        → p < id_limit
        → (fetch_page R D t p).1 ≡ some f
        → Alive s (fetch_page R D t p).0 (f ∷ l)
    failed :
        {t : Pool R D} {l : List ℕ} (p : ℕ)
        → Alive s t l
        → p < id_limit
        → (fetch_page R D t p).1 ≡ none
        → Alive s (fetch_page R D t p).0 l
    dropped :
        {t : Pool R D} (writes : Bool) (f : ℕ) (l r : List ℕ)
        → Alive s t (l ++ f ∷ r)
        → Alive s (drop R D t (guard_of writes f)).0 (l ++ r)

  record Accounted (t : Pool R D) (l : List ℕ) : Type 0 where
    valid : IsValid t
    exact : (g : ℕ) → pins t g ≡ holders g l
    -- A frame with a guard holds a page of the table.
    resident :
        (g : ℕ)
        → 0 < holders g l
        → (lookup (t.pages g).page_id t.page_table ≡ some g)
          × ((t.pages g).page_id ≢ invalid_page_id)

  fetched_valid : (t : Pool R D) (p f : ℕ) → (fetch_page R D t p).1 ≡ some f → p ≢ invalid_page_id
  unfolding fetch_page
  fetched_valid t p f h e = ground arith

  -- A frame where the page `q` is found holds it.
  held :
      (t : Pool R D) (q g : ℕ)
      → IsValid t
      → lookup q t.page_table ≡ some g
      → q ≢ invalid_page_id
      → (lookup (t.pages g).page_id t.page_table ≡ some g) × ((t.pages g).page_id ≢ invalid_page_id)
  held t q g v at ne =
      let same = (v.resident q g at).0 in
      (ap (λ x. lookup x t.page_table) same ∙ at, λ e. ne (sym same ∙ e))

  fetched-resident :
      (t : Pool R D) (l : List ℕ) (p g : ℕ)
      → p < id_limit
      → 0 < bump (fetch_page R D t p).1 g (holders g l)
      → Accounted t l
      → (lookup ((fetch_page R D t p).0.pages g).page_id (fetch_page R D t p).0.page_table ≡ some g)
        × (((fetch_page R D t p).0.pages g).page_id ≢ invalid_page_id)
  fetched-resident t l p g h pos v =
      let f = fetch_page-Fetched t p v.valid h in
      let t' = (fetch_page R D t p).0 in
      elim (Bool-cases (holders g l == 0)) [
        | inl unheld ↦ elim (Option-cases (fetch_page R D t p).1) [
          | inl out ↦ absurd (ground (arith, ap (λ o. bump o g (holders g l)) out))
          | inr (k, found) ↦
              let k_is : k ≡ g = ground (arith, ap (λ o. bump o g (holders g l)) found) in
              held t' p g f.valid
                (subst (λ x. lookup p t'.page_table ≡ some x) k_is (f.found k found).0)
                (fetched_valid t p k found)
        ]
        | inr old ↦
            let some_holder : 0 < holders g l = ground arith in
            let (at, ne) = v.resident g some_holder in
            held t' (t.pages g).page_id g f.valid
              (f.pinned (t.pages g).page_id g at (omega (arith, some_holder, v.exact g))).0 ne
      ]

  fetched-Accounted :
      (t : Pool R D) (l : List ℕ) (p : ℕ) (l' : List ℕ)
      → p < id_limit
      → ((g : ℕ) → bump (fetch_page R D t p).1 g (holders g l) ≡ holders g l')
      → Accounted t l
      → Accounted (fetch_page R D t p).0 l'
  fetched-Accounted t l p l' h same v = record {
    valid = (fetch_page-Fetched t p v.valid h).valid;
    exact = λ g. fetch_page-pins t p g ∙ ap (bump (fetch_page R D t p).1 g) (v.exact g) ∙ same g;
    resident = λ g pos. fetched-resident t l p g h (omega (arith, same g, pos)) v;
  }

  dropped-Accounted :
      (t : Pool R D) (writes : Bool) (f : ℕ) (l r : List ℕ)
      → Accounted t (l ++ f ∷ r)
      → Accounted (drop R D t (guard_of writes f)).0 (l ++ r)
  unfolding drop
  dropped-Accounted t writes f l r v =
      let more = holders-remove f f l r in
      let one : 0 < holders f (l ++ f ∷ r) = ground (arith, more) in
      let (at, ne) = v.resident f one in
      let q = (t.pages f).page_id in
      let d = if writes then (t.pages f).is_dirty else false in
      let t' = (unpin_page R D t q d).0 in
      let now = λ (g : ℕ). unpin_page-pins t q f g d ne at (omega (arith, one, v.exact f)) in
      record {
        valid = unpin_page-IsValid t q d v.valid;
        exact = λ g. ground (arith, (now g).0, v.exact g, holders-remove g f l r);
        resident = λ g pos.
            let (at', ne') = v.resident g (ground (arith, holders-remove g f l r, pos)) in
            held t' (t.pages g).page_id g (unpin_page-IsValid t q d v.valid)
              (ap (lookup (t.pages g).page_id) (now g).1 ∙ at') ne';
      }

  Alive-Accounted : {s t : Pool R D} {l : List ℕ} → Accounted s [] → Alive s t l → Accounted t l
  Alive-Accounted v start = v
  Alive-Accounted v (fetched {t} {l} p f a h e) =
      fetched-Accounted t l p (f ∷ l) h (λ g. ap (λ o. bump o g (holders g l)) e)
        (Alive-Accounted v a)
  Alive-Accounted v (failed {t} {l} p a h e) =
      fetched-Accounted t l p l h (λ g. ap (λ o. bump o g (holders g l)) e) (Alive-Accounted v a)
  Alive-Accounted v (dropped {t} writes f l r a) =
      dropped-Accounted t writes f l r (Alive-Accounted v a)

  -- From a valid pool without pins, however pages are fetched into guards and guards are dropped, each
  -- frame has as many pins as guards that are alive, and the pool stays valid.
  pub pins_balance :
      {s t : Pool R D} {l : List ℕ} (g : ℕ)
      → IsValid s
      → ((f : ℕ) → pins s f ≡ 0)
      → Alive s t l
      → IsValid t × (pins t g ≡ holders g l)
  pins_balance g v idle a =
      let r =
        Alive-Accounted
          (record { valid = v; exact = idle; resident = λ f pos. absurd (omega (arith, pos)) }) a in
      (r.valid, r.exact g)
