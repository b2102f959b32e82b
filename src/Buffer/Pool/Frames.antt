-- ===== src/Buffer/Pool/Frames.antt =====
-- `GetFreeFrame` and `EvictPage`: a frame from the free list, or a victim that was written back.
use goods_db.Prelude.{ℕ, ◌≡◌, false, none, some, arith, Bool-cases, inl, inr}
use goods_db.Prelude.Assoc.{lookup, lookup-erase, erase-Distinct}
use goods_db.Disk.Store.{Store}
use goods_db.Buffer.Replacer.{Replacer}
use goods_db.Buffer.Pool.{Pool, reset_page, update, vacate}
use goods_db.Buffer.Pool.Valid.{IsValid, IsVacant}
use goods_db.Prelude.Members.{member}

module _ {R : Replacer} {D : Store} where
  -- A frame that the policy no longer offers, with a page and no user.
  pub record IsTaken (s : Pool R D) (f : ℕ) : Type 0 where
    pub idle : (s.pages f).pin_count ≡ 0
    pub listed : lookup (s.pages f).page_id s.page_table ≡ some f
    pub withheld : R.evictable s.replacer f ≡ false

  abbrev pub after_victim : (s : Pool R D) → Pool R D
  after_victim s = record s { replacer = (R.victim s.replacer).0 }

  pub after_victim-IsValid-none :
      (s : Pool R D) → IsValid s → (R.victim s.replacer).1 ≡ none → IsValid (after_victim s)
  after_victim-IsValid-none s v e = record {
    policy = R.victim-IsValid s.replacer v.policy;
    resident = v.resident;
    free = λ f k.
        let old = v.free f k in
        record {
          unused = old.unused;
          on_board = old.on_board;
          withheld = ground (arith, R.victim-none s.replacer v.policy e f, old.withheld);
          unlisted = old.unlisted;
        };
    keys = v.keys;
    free_once = v.free_once;
    evictable = λ f k. v.evictable f (ground (arith, R.victim-none s.replacer v.policy e f));
  }

  pub after_victim-IsValid :
      (s : Pool R D) (f : ℕ)
      → IsValid s
      → (R.victim s.replacer).1 ≡ some f
      → IsValid (after_victim s) × IsTaken (after_victim s) f
  after_victim-IsValid s f v e =
      let (was, now) = R.victim-some s.replacer f v.policy e in
      (
        record {
          policy = R.victim-IsValid s.replacer v.policy;
          resident = v.resident;
          free = λ g k.
              let old = v.free g k in
              record {
                unused = old.unused;
                on_board = old.on_board;
                withheld = ground (arith, now g, old.withheld);
                unlisted = old.unlisted;
              };
          keys = v.keys;
          free_once = v.free_once;
          evictable = λ g k. v.evictable g (ground (arith, now g));
        },
        record {
          idle = (v.evictable f was).0;
          listed = (v.evictable f was).1;
          withheld = ground (arith, now f);
        },
      )

  pub vacate-IsValid :
      (s : Pool R D) (f : ℕ)
      → IsValid s
      → IsTaken s f
      → IsValid (vacate R D s f) × IsVacant (vacate R D s f) f × (member f s.free_list ≡ false)
  unfolding vacate update reset_page
  vacate-IsValid s f v t =
      let p = (s.pages f).page_id in
      (
        record {
          policy = v.policy;
          resident = λ q g k. ground (arith, lookup-erase p q s.page_table, v.resident q g);
          free = λ g k.
              let old = v.free g k in
              record {
                unused = ground (arith, old.unused);
                on_board = old.on_board;
                withheld = old.withheld;
                unlisted = λ q k'. ground (arith, lookup-erase p q s.page_table, old.unlisted q);
              };
          keys = erase-Distinct p s.page_table v.keys;
          free_once = v.free_once;
          evictable = λ g k.
              ground (
                arith,
                t.withheld,
                v.evictable g k,
                lookup-erase p (s.pages g).page_id s.page_table,
              );
        },
        record {
          unused = ground (arith, t.idle);
          on_board = (v.resident p f t.listed).2;
          withheld = t.withheld;
          unlisted = λ q k. ground (arith, lookup-erase p q s.page_table, v.resident q f);
        },
        elim (Bool-cases (member f s.free_list)) [
          | inl m ↦ absurd ((v.free f m).unlisted p t.listed)
          | inr m ↦ m
        ],
      )
