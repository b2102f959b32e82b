-- ===== src/Buffer/Pool/Visit.antt =====
-- How the storage layer of goods_db/src/storage uses a page: `FetchPage`, work on the bytes of the
-- frame, `MarkDirty` where the page changed, and `UnpinPage`.
use goods_db.Prelude.{
  ℕ, ◌<◌, ◌≡◌, ◌≢◌, refl, Bool, true, false, [], Option, none, some, arith, ◌==◌, if◌then◌else◌,
  Option-cases, inl, inr, sym, ap, ◌∙◌, subst,
}
use goods_db.Prelude.Assoc.{lookup}
use goods_db.Prelude.Bytes.{Bytes}
use goods_db.Disk.{id_limit, invalid_page_id}
use goods_db.Disk.Store.{Store}
use goods_db.Buffer.Replacer.{Replacer}
use goods_db.Buffer.Pool.{Pool, update, fetch_page, unpin_page}
use goods_db.Buffer.Pool.Refusal.{fetch_page_refused}
use goods_db.Buffer.Pool.Valid.{IsValid}
use goods_db.Buffer.Pool.Content.{content, IsCoherent}
use goods_db.Buffer.Pool.Fetch.{fetch_page-Fetched, fetch_page-content}
use goods_db.Buffer.Pool.Unpin.{unpin_page_stays, unpin_page-IsValid, unpin_page-IsCoherent}

module _ (R : Replacer) (D : Store) where
  -- New bytes in a frame, and `MarkDirty`.
  unfoldable pub store : Pool R D → ℕ → Bytes → Bool → Pool R D
  store s f b dirty = record s {
    pages =
        update s.pages f (record (s.pages f) {
          bytes = b;
          is_dirty = if dirty then true else (s.pages f).is_dirty;
        });
  }

  -- The work, from the bytes of the page to the new bytes, whether they are marked, and a result.
  abbrev pub Work : Type 0 → Type 0
  Work A = Bytes → Bytes × Bool × A

  unfoldable pub work_on : {A : Type 0} → Pool R D → ℕ → ℕ → Work A → Pool R D × Option A
  work_on s f p work =
      let (b, dirty, a) = work (s.pages f).bytes in
      ((unpin_page R D (store s f b dirty) p dirty).0, some a)

  -- `none` is a page that could not be fetched.
  unfoldable pub visit : {A : Type 0} → Pool R D → ℕ → Work A → Pool R D × Option A
  visit s p work = elim (fetch_page R D s p).1 [
    | none ↦ ((fetch_page R D s p).0, none)
    | some f ↦ work_on (fetch_page R D s p).0 f p work
  ]

module _ {R : Replacer} {D : Store} where
  pub store-IsValid :
      (s : Pool R D) (f : ℕ) (b : Bytes) (dirty : Bool)
      → IsValid s
      → IsValid (store R D s f b dirty)
  unfolding store update
  store-IsValid s f b dirty v = record {
    policy = v.policy;
    resident = λ q g k. ground (arith, v.resident q g k);
    free = λ g k.
        let old = v.free g k in
        record {
          unused = ground (arith, old.unused);
          on_board = old.on_board;
          withheld = old.withheld;
          unlisted = old.unlisted;
        };
    keys = v.keys;
    free_once = v.free_once;
    evictable = λ g k. ground (arith, v.evictable g k);
  }

  -- Bytes that are not marked are the old ones.
  store-IsCoherent :
      (s : Pool R D) (p f : ℕ) (b : Bytes) (dirty : Bool)
      → IsCoherent s
      → lookup p s.page_table ≡ some f
      → (dirty ≡ false → b ≡ (s.pages f).bytes)
      → IsCoherent (store R D s f b dirty) × (content (store R D s f b dirty) p ≡ some b)
  unfolding store update
  store-IsCoherent s p f b true c at same = (λ q g k n. ground (arith, c q g), ground arith)
  store-IsCoherent s p f b false c at same = ground arith

  -- Marked bytes, where the frame's page was the one page that the disk may not have.
  pub store-IsCoherent_marked :
      (s : Pool R D) (p f : ℕ) (b : Bytes)
      → ((q g : ℕ)
          → p ≢ q
          → lookup q s.page_table ≡ some g
          → (s.pages g).is_dirty ≡ false
          → D.stored s.disk q ≡ some (s.pages g).bytes)
      → IsValid s
      → lookup p s.page_table ≡ some f
      → IsCoherent (store R D s f b true) × (content (store R D s f b true) p ≡ some b)
  unfolding store update
  store-IsCoherent_marked s p f b c v at = ground arith

  -- Unmarked bytes in a frame that has its mark.
  pub store-IsCoherent_kept :
      (s : Pool R D) (p f : ℕ) (b : Bytes)
      → IsCoherent s
      → lookup p s.page_table ≡ some f
      → (s.pages f).is_dirty ≡ true
      → IsCoherent (store R D s f b false) × (content (store R D s f b false) p ≡ some b)
  unfolding store update
  store-IsCoherent_kept s p f b c at mark = (λ q g k n. ground (arith, c q g), ground arith)

  pub store-content :
      (s : Pool R D) (p q f : ℕ) (b : Bytes) (dirty : Bool)
      → IsValid s
      → lookup p s.page_table ≡ some f
      → p ≢ q
      → content (store R D s f b dirty) q ≡ content s q
  unfolding store update
  store-content s p q f b dirty v at ne = elim (Option-cases (lookup q s.page_table)) [
    | inl out ↦ ground arith
    | inr (g, there) ↦
        let other : (f == g) ≡ false = ground (arith, v.resident p f at, v.resident q g there) in
        ground (arith, other)
  ]

  -- What a visit leaves behind.
  pub record Visited {A : Type 0} (s : Pool R D) (p : ℕ) (work : Work R D A)
      (r : Pool R D × Option A) : Type 0 where
    pub valid : IsValid r.0
    pub coherent : IsCoherent r.0
    pub missed :
        r.1 ≡ none
        → (q : ℕ) (c : Bytes) → q < id_limit
        → content s q ≡ some c
        → content r.0 q ≡ some c
    pub done :
        (a : A) (m : Bytes)
        → r.1 ≡ some a
        → content s p ≡ some m
        → (a ≡ (work m).2) × (content r.0 p ≡ some (work m).0)
    pub others :
        (q : ℕ) (c : Bytes) → q < id_limit → p ≢ q → content s q ≡ some c → content r.0 q ≡ some c
    pub full :
        r.1 ≡ none → p ≢ invalid_page_id → (c : Bytes) → content s p ≡ some c → r.0.free_list ≡ []
    pub pinned :
        (q g : ℕ)
        → lookup q s.page_table ≡ some g
        → 0 < (s.pages g).pin_count
        → lookup q r.0.page_table ≡ some g

  visit_missed :
      {A : Type 0} (s : Pool R D) (p : ℕ) (work : Work R D A)
      → (fetch_page R D s p).1 ≡ none
      → visit R D s p work ≡ ((fetch_page R D s p).0, none)
  unfolding visit
  visit_missed s p work e = rw (e, visit) refl

  visit_done :
      {A : Type 0} (s : Pool R D) (p f : ℕ) (work : Work R D A)
      → (fetch_page R D s p).1 ≡ some f
      → visit R D s p work ≡ work_on R D (fetch_page R D s p).0 f p work
  unfolding visit
  visit_done s p f work e = rw (e, visit) refl

  -- A page that can be fetched is worked on.
  pub visit-some :
      {A : Type 0} (s : Pool R D) (p f : ℕ) (work : Work R D A)
      → (fetch_page R D s p).1 ≡ some f
      → (a : A) × ((visit R D s p work).1 ≡ some a)
  visit-some s p f work e =
      let m = ((fetch_page R D s p).0.pages f).bytes in
      ((work m).2, ap (λ r. r.1) (visit_done s p f work e) ∙ (unfold work_on in refl))

  stays :
      (s : Pool R D) (f : ℕ) (b : Bytes) (dirty : Bool) (p : ℕ)
      → (unpin_page R D (store R D s f b dirty) p dirty).0.page_table ≡ s.page_table
  stays s f b dirty p =
      (unpin_page_stays (store R D s f b dirty) p dirty).0 ∙ (unfold store in refl)

  -- Only a page that cannot be fetched is not worked on.
  pub visit-none :
      {A : Type 0} (s : Pool R D) (p : ℕ) (work : Work R D A)
      → (visit R D s p work).1 ≡ none
      → (fetch_page R D s p).1 ≡ none
  visit-none s p work h = elim (Option-cases (fetch_page R D s p).1) [
    | inl e ↦ e
    | inr (f, e) ↦ absurd (let (a, done) = visit-some s p f work e in cc (h, done))
  ]

  pub visit-Visited :
      {A : Type 0} (s : Pool R D) (p : ℕ) (work : Work R D A)
      → IsValid s
      → IsCoherent s
      → p < id_limit
      → ((m : Bytes) → (work m).1 ≡ false → (work m).0 ≡ m)
      → Visited s p work (visit R D s p work)
  visit-Visited s p work v c h honest =
      let t = fetch_page-Fetched s p v h in
      let s' : Pool R D = (fetch_page R D s p).0 in
      elim (Option-cases (fetch_page R D s p).1) [
        | inl e ↦ subst (Visited s p work) (sym (visit_missed s p work e)) (record {
          valid = t.valid;
          coherent = t.coherent c;
          missed = λ k q b l held. t.same c q b l held;
          done = λ a m k held. absurd (cc k);
          others = λ q b l ne held. t.same c q b l held;
          full = λ k real b held. fetch_page_refused s p b v c h real held e;
          pinned = λ q g k n. (t.pinned q g k n).0;
        })
        | inr (f, e) ↦
            let at = (t.found f e).0 in
            let m = (s'.pages f).bytes in
            let stored =
              store-IsCoherent s' p f (work m).0 (work m).1 (t.coherent c) at (honest m) in
            let left =
              unpin_page-IsCoherent (store R D s' f (work m).0 (work m).1) p (work m).1 stored.0 in
            subst (Visited s p work) (sym (visit_done s p f work e)) (
              unfold work_on in
              record {
                valid =
                    unpin_page-IsValid (store R D s' f (work m).0 (work m).1) p (work m).1
                      (store-IsValid s' f (work m).0 (work m).1 t.valid);
                coherent = left.0;
                missed = λ k. absurd (cc k);
                done = λ a m' k held.
                    let same : m ≡ m' = fetch_page-content s p f m' v c h e held in
                    let result : (work m).2 ≡ a = ground (arith, k) in
                    (
                      sym result ∙ ap (λ x. (work x).2) same,
                      left.1 p ∙ stored.1 ∙ ap (λ x. some (work x).0) same,
                    );
                others = λ q b l ne held.
                    left.1 q
                    ∙ store-content s' p q f (work m).0 (work m).1 t.valid at ne
                    ∙ t.same c q b l held;
                full = λ k. absurd (cc k);
                pinned = λ q g k n.
                    ap (lookup q) (stays s' f (work m).0 (work m).1 p) ∙ (t.pinned q g k n).0;
              })
      ]
