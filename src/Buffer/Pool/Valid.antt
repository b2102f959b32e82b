-- ===== src/Buffer/Pool/Valid.antt =====
-- The invariant of the pool: the page table, the free list and the policy agree about each frame.
use goods_db.Prelude.Members.{member, Once, member-append, Once-append}
use goods_db.Prelude.{
  ℕ, zero, suc, ◌+◌, ◌-◌, ◌≤◌, ◌<◌, ◌≡◌, ◌≢◌, refl, Bool, true, false, none, some, arith, ◌==◌,
  Bool-cases, inl, inr,
}
use goods_db.Prelude.Assoc.{
  lookup, lookup-erase, lookup-put, Distinct, put-Distinct, erase-Distinct,
}
use goods_db.Prelude.Bytes.{Bytes}
use goods_db.Disk.{id_limit}
use goods_db.Disk.Store.{Store}
use goods_db.Buffer.Replacer.{Replacer}
use goods_db.Buffer.Pool.{
  Pool, reset_page, update, install, delete_frame, fetch_hit, unpin_frame, unpin_count, init,
  first_frames,
}

member-first_frames : (n i f : ℕ) → member f (first_frames n i) ≡ true → (i ≤ f) × (f < i + n)
member-first_frames zero i f m = absurd (cc m)
member-first_frames (suc n) i f m = ground (arith, member-first_frames n (i + 1) f)

Once-first_frames : (n i : ℕ) → Once (first_frames n i)
Once-first_frames zero i = tt
Once-first_frames (suc n) i =
    (ground (arith, member-first_frames n (i + 1) i), Once-first_frames n (i + 1))

module _ {R : Replacer} {D : Store} where
  -- No page and no user: what the free list holds.
  pub record IsVacant (s : Pool R D) (f : ℕ) : Type 0 where
    pub unused : (s.pages f).pin_count ≡ 0
    pub on_board : f < s.pool_size
    pub withheld : R.evictable s.replacer f ≡ false
    pub unlisted : (p : ℕ) → lookup p s.page_table ≢ some f

  pub record IsValid (s : Pool R D) : Type 0 where
    pub policy : R.IsValid s.replacer
    pub resident :
        (p f : ℕ)
        → lookup p s.page_table ≡ some f
        → ((s.pages f).page_id ≡ p) × (p < id_limit) × (f < s.pool_size)
    pub free : (f : ℕ) → member f s.free_list ≡ true → IsVacant s f
    pub keys : Distinct s.page_table
    pub free_once : Once s.free_list
    pub evictable :
        (f : ℕ)
        → R.evictable s.replacer f ≡ true
        → ((s.pages f).pin_count ≡ 0) × (lookup (s.pages f).page_id s.page_table ≡ some f)

  pub install-IsValid :
      (s : Pool R D) (f p : ℕ) (b : Bytes)
      → IsValid s
      → IsVacant s f
      → member f s.free_list ≡ false
      → lookup p s.page_table ≡ none
      → p < id_limit
      → IsValid (install R D s f p b)
  unfolding install update
  install-IsValid s f p b v e m a h = record {
    policy = R.pin-IsValid s.replacer f v.policy;
    resident = λ q g k. ground (arith, lookup-put p q f s.page_table, v.resident q g, e.unlisted q);
    free = λ g k.
        let old = v.free g k in
        record {
          unused = ground arith;
          on_board = old.on_board;
          withheld = ground (arith, R.evictable-pin s.replacer f g v.policy, old.withheld);
          unlisted = λ q k'. ground (arith, lookup-put p q f s.page_table, old.unlisted q);
        };
    keys = put-Distinct p f s.page_table v.keys;
    free_once = v.free_once;
    evictable = λ g k. ground (
      arith,
      R.evictable-pin s.replacer f g v.policy,
      v.evictable g,
      lookup-put p (s.pages g).page_id f s.page_table,
    );
  }

  -- A hit takes the frame from the policy before its pin count rises.
  pub fetch_hit-IsValid :
      (s : Pool R D) (f p : ℕ)
      → IsValid s
      → lookup p s.page_table ≡ some f
      → IsValid (fetch_hit R D s f)
  unfolding fetch_hit update
  fetch_hit-IsValid s f p v found = record {
    policy = R.pin-IsValid s.replacer f v.policy;
    resident = λ q g k. ground (arith, v.resident q g k);
    free = λ g k.
        let old = v.free g k in
        let other : (f == g) ≡ false = ground (arith, old.unlisted p) in
        record {
          unused = rw other old.unused;
          on_board = old.on_board;
          withheld = ground (arith, R.evictable-pin s.replacer f g v.policy, old.withheld);
          unlisted = old.unlisted;
        };
    keys = v.keys;
    free_once = v.free_once;
    evictable = λ g k. ground (arith, R.evictable-pin s.replacer f g v.policy, v.evictable g);
  }

  pub unpin_frame-IsValid :
      (s : Pool R D) (f p : ℕ) (d : Bool)
      → IsValid s
      → lookup p s.page_table ≡ some f
      → IsValid (unpin_frame R D s f d)
  unfolding unpin_frame update unpin_count
  unpin_frame-IsValid s f p d v found =
      let n = (s.pages f).pin_count - 1 in
      record {
        policy = elim (Bool-cases (n == 0)) [
          | inl z ↦ rw z (R.unpin-IsValid s.replacer f v.policy)
          | inr z ↦ rw z v.policy
        ];
        resident = λ q g k. ground (arith, v.resident q g k);
        free = λ g k.
            let old = v.free g k in
            let other : (f == g) ≡ false = ground (arith, old.unlisted p) in
            record {
              unused = rw other old.unused;
              on_board = old.on_board;
              withheld =
                  ground (arith, R.evictable-unpin_ne s.replacer f g v.policy other, old.withheld);
              unlisted = old.unlisted;
            };
        keys = v.keys;
        free_once = v.free_once;
        evictable = λ g k. elim (Bool-cases (f == g)) [
          | inl same ↦ ground (arith, v.resident p f found, v.evictable g)
          | inr other ↦
              ground (arith, R.evictable-unpin_ne s.replacer f g v.policy other, v.evictable g)
        ];
      }

  pub delete_frame-IsValid :
      (s : Pool R D) (f p : ℕ)
      → IsValid s
      → lookup p s.page_table ≡ some f
      → (s.pages f).pin_count ≡ 0
      → IsValid (delete_frame R D s p f)
  unfolding delete_frame update reset_page
  delete_frame-IsValid s f p v found unused =
      let not_free : member f s.free_list ≡ false = elim (Bool-cases (member f s.free_list)) [
        | inl m ↦ absurd ((v.free f m).unlisted p found)
        | inr m ↦ m
      ] in
      record {
        policy = R.pin-IsValid s.replacer f v.policy;
        resident = λ q g k.
            ground (arith, lookup-erase p q s.page_table, v.resident q g, v.resident p f found);
        free = λ g k. elim (Bool-cases (g == f)) [
          | inl same ↦ record {
            unused = ground arith;
            on_board = ground (arith, v.resident p f found);
            withheld = ground (arith, R.evictable-pin s.replacer f g v.policy);
            unlisted = λ q k'.
                ground (arith, lookup-erase p q s.page_table, v.resident q g, v.resident p f found);
          }
          | inr other ↦
              let old = v.free g (ground (arith, member-append g f s.free_list)) in
              record {
                unused = ground (arith, old.unused);
                on_board = old.on_board;
                withheld = ground (arith, R.evictable-pin s.replacer f g v.policy, old.withheld);
                unlisted = λ q k'. ground (arith, lookup-erase p q s.page_table, old.unlisted q);
              }
        ];
        keys = erase-Distinct p s.page_table v.keys;
        free_once = Once-append f s.free_list v.free_once not_free;
        evictable = λ g k. ground (
          arith,
          R.evictable-pin s.replacer f g v.policy,
          v.evictable g,
          lookup-erase p (s.pages g).page_id s.page_table,
          v.resident p f found,
        );
      }

  pub init-IsValid :
      (n : ℕ) (d : D.State) (r : R.State)
      → R.IsValid r
      → ((f : ℕ) → R.evictable r f ≡ false)
      → IsValid (init R D n d r)
  unfolding init lookup
  init-IsValid n d r ok idle = record {
    policy = ok;
    resident = λ p f k. absurd (cc k);
    free = λ f k. record {
      unused = refl;
      on_board = ground (arith, member-first_frames n 0 f k);
      withheld = idle f;
      unlisted = λ p k'. cc k';
    };
    keys = tt;
    free_once = Once-first_frames n 0;
    evictable = λ f k. absurd (cc (idle f));
  }

  IsVacant-disk :
      (s : Pool R D) (f : ℕ) (d : D.State) → IsVacant s f → IsVacant (record s { disk = d }) f
  IsVacant-disk s f d e = ground arith

  -- The invariant does not speak of the disk, nor of the counters.
  pub IsValid-disk : (s : Pool R D) (d : D.State) → IsValid s → IsValid (record s { disk = d })
  IsValid-disk s d v = ground arith

  pub IsValid-count : (s : Pool R D) (n : ℕ) → IsValid s → IsValid (record s { access_count = n })
  IsValid-count s n v = ground arith
