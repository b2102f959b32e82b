-- ===== src/Buffer/Pool/FlushEntry.antt =====
-- One round of the loops of `FlushAllPages` and `FlushFilePages`, and what holds on the way.
use goods_db.Prelude.{ℕ, ◌≡◌, refl, true, false, none, some, arith, Bool-cases, inl, inr}
use goods_db.Prelude.Assoc.{lookup}
use goods_db.Disk.Store.{Store, Accepts}
use goods_db.Buffer.Replacer.{Replacer}
use goods_db.Buffer.Pool.{Pool, update, clear_dirty, flush_entry}
use goods_db.Buffer.Pool.Valid.{IsValid, IsValid-disk}
use goods_db.Buffer.Pool.Content.{IsCoherent}

module _ {R : Replacer} {D : Store} where
  clear_dirty-IsValid : (s : Pool R D) (f : ℕ) → IsValid s → IsValid (clear_dirty R D s f)
  unfolding clear_dirty update
  clear_dirty-IsValid s f v = record {
    policy = v.policy;
    resident = λ q g k. ground (arith, v.resident q g k);
    free = λ g k.
        let old = v.free g k in
        record {
          unused = ground (arith, old.unused);
          on_board = old.on_board;
          withheld = old.withheld;
          unlisted = old.unlisted;
        };
    keys = v.keys;
    free_once = v.free_once;
    evictable = λ g k. ground (arith, v.evictable g k);
  }

  flush_entry_clean :
      (s : Pool R D) (p f : ℕ) → (s.pages f).is_dirty ≡ false → flush_entry R D s (p, f) ≡ s
  unfolding flush_entry
  flush_entry_clean s p f e = rw e

  flush_entry_failed :
      (s : Pool R D) (p f : ℕ)
      → (s.pages f).is_dirty ≡ true
      → D.write s.disk p (s.pages f).bytes ≡ none
      → flush_entry R D s (p, f) ≡ clear_dirty R D s f
  unfolding flush_entry
  flush_entry_failed s p f e w = rw e (rw (w, flush_entry))

  flush_entry_done :
      (s : Pool R D) (p f : ℕ) (d : D.State)
      → (s.pages f).is_dirty ≡ true
      → D.write s.disk p (s.pages f).bytes ≡ some d
      → flush_entry R D s (p, f) ≡ record (clear_dirty R D s f) { disk = d }
  unfolding flush_entry
  flush_entry_done s p f d e w = rw e (rw (w, flush_entry))

module _ {R : Replacer} {D : Store} (A : Accepts D) where
  -- What holds of the pool on the way through a loop of flushes of the pages of `s`.
  pub record Flushing (s t : Pool R D) : Type 0 where
    pub valid : IsValid t
    pub coherent : IsCoherent t
    pub table : t.page_table ≡ s.page_table
    pub bytes : (f : ℕ) → (t.pages f).bytes ≡ (s.pages f).bytes
    pub good : A.IsGood t.disk
    pub still_clean : (f : ℕ) → (s.pages f).is_dirty ≡ false → (t.pages f).is_dirty ≡ false

  pub flush_entry-Flushing :
      (s : Pool R D) (p f : ℕ)
      → A.IsGood s.disk
      → A.IsKnown p
      → IsValid s
      → IsCoherent s
      → lookup p s.page_table ≡ some f
      → Flushing s (flush_entry R D s (p, f))
        × (((flush_entry R D s (p, f)).pages f).is_dirty ≡ false)
  flush_entry-Flushing s p f ok known v c at = elim (Bool-cases (s.pages f).is_dirty) [
    | inr clean ↦ rw (flush_entry_clean s p f clean) (
      record {
        valid = v;
        coherent = c;
        table = refl;
        bytes = λ g. refl;
        good = ok;
        still_clean = λ g k. k;
      },
      clean,
    )
    | inl dirty ↦
        let (d, done, good) = A.takes s.disk p (s.pages f).bytes ok known in
        let t = clear_dirty R D s f in
        let v' = IsValid-disk t d (clear_dirty-IsValid s f v) in
        rw (flush_entry_done s p f d dirty done) (
          unfold clear_dirty update in
          (
            record {
              valid = v';
              coherent = λ q g k n. ground (
                arith,
                D.stored-write_self s.disk d p (s.pages f).bytes done,
                D.stored-write s.disk d p q (s.pages f).bytes (s.pages g).bytes
                    (v.resident p f at).1 (v.resident q g k).1 done,
                c q g k,
                v.resident q g k,
                v.resident p f at,
              );
              table = refl;
              bytes = λ g. ground arith;
              good = good;
              still_clean = λ g k. ground arith;
            },
            ground arith,
          ))
  ]

  pub chain-Flushing : (s t u : Pool R D) → Flushing s t → Flushing t u → Flushing s u
  chain-Flushing s t u a b = ground arith
