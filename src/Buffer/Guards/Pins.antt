-- ===== src/Buffer/Guards/Pins.antt =====
-- What the calls of the pool do to the pins of the frames.
use goods_db.Prelude.{
  ℕ, ◌+◌, ◌-◌, ◌<◌, ◌≡◌, ◌≢◌, refl, Bool, List, [], ◌∷◌, Option, none, some, arith, ◌==◌,
  if◌then◌else◌, Bool-cases, Option-cases, inl, inr, ap, ◌∙◌,
}
use goods_db.Prelude.Assoc.{lookup}
use goods_db.Disk.{invalid_page_id}
use goods_db.Disk.Store.{Store}
use goods_db.Buffer.Replacer.{Replacer}
use goods_db.Buffer.Pool.{
  Pool, update, reset_page, unpin_count, vacate, write_back, evict_page, get_free_frame, fetch_hit,
  install, load, fetch_miss, fetch_page, unpin_frame, unpin_page,
}

-- One pin more on the frame, if there is one.
abbrev pub bump : Option ℕ → ℕ → ℕ → ℕ
bump none g n = n
bump (some f) g n = if f == g then n + 1 else n

module _ {R : Replacer} {D : Store} where
  abbrev pub pins : Pool R D → ℕ → ℕ
  pins s g = (s.pages g).pin_count

  vacate-pins : (s : Pool R D) (f g : ℕ) → pins (vacate R D s f) g ≡ pins s g
  unfolding vacate update reset_page
  vacate-pins s f g = ground arith

  write_back-pins : (s : Pool R D) (f g : ℕ) → pins (write_back R D s f).0 g ≡ pins s g
  unfolding write_back
  write_back-pins s f g = elim (Bool-cases (s.pages f).is_dirty) [
    | inl dirty ↦ elim (Option-cases (D.write s.disk (s.pages f).page_id (s.pages f).bytes)) [
      | inl failed ↦ rw (write_back, dirty, failed) refl
      | inr (d, done) ↦ rw (write_back, dirty, done) (vacate-pins (record s { disk = d }) f g)
    ]
    | inr clean ↦ rw (write_back, clean) (vacate-pins s f g)
  ]

  evict_page-pins : (s : Pool R D) (g : ℕ) → pins (evict_page R D s).0 g ≡ pins s g
  unfolding evict_page
  evict_page-pins s g = elim (Option-cases (R.victim s.replacer).1) [
    | inl out ↦ rw (evict_page, out) refl
    | inr (f, found) ↦
        rw (evict_page, found)
          (write_back-pins (record s { replacer = (R.victim s.replacer).0 }) f g)
  ]

  get_free_frame-pins : (s : Pool R D) (g : ℕ) → pins (get_free_frame R D s).0 g ≡ pins s g
  unfolding get_free_frame
  get_free_frame-pins s g = free_cases s.free_list refl
    where
      free_cases : (l : List ℕ) → s.free_list ≡ l → pins (get_free_frame R D s).0 g ≡ pins s g
      free_cases [] e = rw (get_free_frame, e) (evict_page-pins s g)
      free_cases (f ∷ rest) e = rw (get_free_frame, e) refl

  load-pins :
      (s : Pool R D) (f p g : ℕ) → pins (load R D s f p).0 g ≡ bump (load R D s f p).1 g (pins s g)
  unfolding load install update
  load-pins s f p g = ground arith

  fetch_miss-pins :
      (s : Pool R D) (p g : ℕ)
      → pins (fetch_miss R D s p).0 g ≡ bump (fetch_miss R D s p).1 g (pins s g)
  unfolding fetch_miss
  fetch_miss-pins s p g = elim (Option-cases (get_free_frame R D s).1) [
    | inl out ↦ rw (fetch_miss, out) (get_free_frame-pins s g)
    | inr (f, found) ↦
        rw (fetch_miss, found)
          (load-pins (get_free_frame R D s).0 f p g
            ∙ ap (bump (load R D (get_free_frame R D s).0 f p).1 g) (get_free_frame-pins s g))
  ]

  -- `FetchPage` adds a pin to the frame that it returns and to no other.
  pub fetch_page-pins :
      (s : Pool R D) (p g : ℕ)
      → pins (fetch_page R D s p).0 g ≡ bump (fetch_page R D s p).1 g (pins s g)
  unfolding fetch_page fetch_hit update
  fetch_page-pins s p g = elim (Bool-cases (p == invalid_page_id)) [
    | inl i ↦ rw (fetch_page, i) refl
    | inr i ↦ elim (Option-cases (lookup p s.page_table)) [
      | inl out ↦
          rw (fetch_page, i, out)
            (fetch_miss-pins (record s { access_count = s.access_count + 1 }) p g)
      | inr (f, at) ↦ rw (fetch_page, i, at) (ground arith)
    ]
  ]

  -- `UnpinPage` of a pinned page takes a pin from its frame and from no other, and leaves the table.
  pub unpin_page-pins :
      (s : Pool R D) (p f g : ℕ) (d : Bool)
      → p ≢ invalid_page_id
      → lookup p s.page_table ≡ some f
      → 0 < pins s f
      → (pins (unpin_page R D s p d).0 g ≡ (if f == g then pins s g - 1 else pins s g))
        × ((unpin_page R D s p d).0.page_table ≡ s.page_table)
  unfolding unpin_page unpin_frame update unpin_count
  unpin_page-pins s p f g d valid at pos = ground arith
