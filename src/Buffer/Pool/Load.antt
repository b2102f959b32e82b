-- ===== src/Buffer/Pool/Load.antt =====
-- `FetchPage` of goods_db/src/buffer/buffer_pool_manager.cpp from the disk into an empty frame.
use goods_db.Prelude.{
  ℕ, ◌≤◌, ◌<◌, ◌≡◌, false, [], ◌∷◌, ◌++◌, Option, none, some, arith, ◌==◌, Bool-cases, Option-cases,
  inl, inr, sym, subst,
}
use goods_db.Prelude.Assoc.{lookup, lookup-put}
use goods_db.Prelude.Bytes.{Bytes}
use goods_db.Disk.{id_limit}
use goods_db.Disk.Store.{Store}
use goods_db.Buffer.Replacer.{Replacer}
use goods_db.Buffer.Pool.{Pool, update, install, load}
use goods_db.Buffer.Pool.Valid.{IsValid, IsVacant, install-IsValid}
use goods_db.Prelude.Members.{member, member-append, Once-append}
use goods_db.Buffer.Pool.Content.{content, IsCoherent}

module _ {R : Replacer} {D : Store} where
  -- What a call that fetches page `p` leaves behind.
  pub record Fetched (s : Pool R D) (p : ℕ) (r : Pool R D × Option ℕ) : Type 0 where
    pub valid : IsValid r.0
    pub found :
        (f : ℕ) → r.1 ≡ some f → (lookup p r.0.page_table ≡ some f) × (0 < (r.0.pages f).pin_count)
    pub pinned :
        (q g : ℕ)
        → lookup q s.page_table ≡ some g
        → 0 < (s.pages g).pin_count
        → (lookup q r.0.page_table ≡ some g)
          × ((r.0.pages g).bytes ≡ (s.pages g).bytes)
          × ((s.pages g).pin_count ≤ (r.0.pages g).pin_count)
    pub coherent : IsCoherent s → IsCoherent r.0
    pub same :
        IsCoherent s
        → (q : ℕ) (c : Bytes) → q < id_limit
        → content s q ≡ some c
        → content r.0 q ≡ some c

  -- A frame without a page takes page `p`, which the disk holds.
  install-Fetched :
      (s : Pool R D) (f p : ℕ) (b : Bytes)
      → IsValid s
      → IsVacant s f
      → member f s.free_list ≡ false
      → lookup p s.page_table ≡ none
      → p < id_limit
      → D.stored s.disk p ≡ some b
      → Fetched s p (install R D s f p b, some f)
  install-Fetched s f p b v e m a h k =
      let v' = install-IsValid s f p b v e m a h in
      unfold install update in
      record {
        valid = v';
        found = λ g r. (ground (arith, lookup-put p p f s.page_table), ground arith);
        pinned = λ q g r n. (
          ground (arith, lookup-put p q f s.page_table),
          ground (arith, e.unused),
          ground (arith, e.unused),
        );
        coherent = λ c q g r d. ground (arith, lookup-put p q f s.page_table, c q g, e.unlisted q);
        same = λ c q w l o. elim (Bool-cases (p == q)) [
          | inl same ↦ ground (arith, lookup-put p q f s.page_table)
          | inr other ↦ elim (Option-cases (lookup q s.page_table)) [
            | inl out ↦ ground (arith, lookup-put p q f s.page_table)
            | inr (g, at) ↦ ground (arith, lookup-put p q f s.page_table, e.unlisted q)
          ]
        ];
      }

  give_back-IsValid :
      (s : Pool R D) (f : ℕ) (b : Bytes)
      → IsValid s
      → IsVacant s f
      → member f s.free_list ≡ false
      → IsValid (record s {
        pages = update s.pages f (record (s.pages f) { bytes = b });
        free_list = s.free_list ++ f ∷ [];
      })
  unfolding update
  give_back-IsValid s f b v e m = record {
    policy = v.policy;
    resident = λ q g k. ground (arith, v.resident q g k);
    free = λ g k. elim (Bool-cases (g == f)) [
      | inl same ↦
          let same' : g ≡ f = ground arith in
          rw same' (record {
            unused = ground (arith, e.unused);
            on_board = e.on_board;
            withheld = e.withheld;
            unlisted = e.unlisted;
          })
      | inr other ↦
          let old = v.free g (ground (arith, member-append g f s.free_list)) in
          record {
            unused = ground (arith, old.unused);
            on_board = old.on_board;
            withheld = old.withheld;
            unlisted = old.unlisted;
          }
    ];
    keys = v.keys;
    free_once = Once-append f s.free_list v.free_once m;
    evictable = λ g k. ground (arith, v.evictable g k);
  }

  give_back-Fetched :
      (s : Pool R D) (f p : ℕ) (b : Bytes)
      → IsValid s
      → IsVacant s f
      → member f s.free_list ≡ false
      → Fetched s p (
        record s {
          pages = update s.pages f (record (s.pages f) { bytes = b });
          free_list = s.free_list ++ f ∷ [];
        },
        none,
      )
  give_back-Fetched s f p b v e m =
      let v' = give_back-IsValid s f b v e m in
      unfold update in
      record {
        valid = v';
        found = λ g r. absurd (cc r);
        pinned = λ q g r n. (r, ground (arith, e.unused), ground (arith, e.unused));
        coherent = λ c q g r d. ground (arith, c q g, e.unlisted q);
        same = λ c q w l o. elim (Option-cases (lookup q s.page_table)) [
          | inl out ↦ ground arith
          | inr (g, at) ↦ ground (arith, e.unlisted q)
        ];
      }

  pub load-Fetched :
      (s : Pool R D) (f p : ℕ)
      → IsValid s
      → IsVacant s f
      → member f s.free_list ≡ false
      → lookup p s.page_table ≡ none
      → p < id_limit
      → Fetched s p (load R D s f p)
  load-Fetched s f p v e m a h = elim (Option-cases (D.stored s.disk p)) [
    | inr (b, held) ↦
        subst (Fetched s p) (sym (load_done b held)) (install-Fetched s f p b v e m a h held)
    | inl missing ↦
        subst (Fetched s p) (sym (load_failed missing)) (give_back-Fetched s f p _ v e m)
  ]
    where
      load_done :
          (b : Bytes) → D.stored s.disk p ≡ some b → load R D s f p ≡ (install R D s f p b, some f)
      load_done b held = unfold load in rw (D.read-stored s.disk p (s.pages f).bytes b held)

      load_failed :
          D.stored s.disk p ≡ none
          → load R D s f p ≡ (
            record s {
              pages =
                  update s.pages f
                    (record (s.pages f) { bytes = (D.read s.disk p (s.pages f).bytes).1 });
              free_list = s.free_list ++ f ∷ [];
            },
            none,
          )
      load_failed missing = unfold load in rw (D.read-missing s.disk p (s.pages f).bytes missing)
