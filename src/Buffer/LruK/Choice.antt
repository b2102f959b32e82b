-- ===== src/Buffer/LruK/Choice.antt =====
-- The loop of `Victim` picks an evictable frame of the largest backward k-distance.
use goods_db.Prelude.{
  ℕ, ◌≤◌, ◌≡◌, Bool, true, false, List, [], ◌∷◌, none, some, arith, ◌==◌, ◌⊎◌, inl, inr, Bool-cases,
}
use goods_db.Prelude.Assoc.{lookup}
use goods_db.Buffer.LruK.{Best, consider, choose}

abbrev pub AtLeast : ℕ → Best → Type 0
AtLeast n none = ⊥
AtLeast n (some (f, d)) = n ≤ d

module _ (dist : ℕ → ℕ) where
  consider-AtLeast :
      (f : ℕ) (flag : Bool) (b : Best) (n : ℕ) → AtLeast n b → AtLeast n (consider dist (f, flag) b)
  unfolding consider
  consider-AtLeast f false b n h = h
  consider-AtLeast f true none n h = elim h [ ]
  consider-AtLeast f true (some (g, d)) n h = ground arith

  consider_self : (f : ℕ) (b : Best) → AtLeast (dist f) (consider dist (f, true) b)
  unfolding consider
  consider_self f none = omega arith
  consider_self f (some (g, d)) = ground arith

  choose-AtLeast :
      (l : List (ℕ × Bool)) (b : Best) (n : ℕ) → AtLeast n b → AtLeast n (choose dist l b)
  unfolding choose
  choose-AtLeast [] b n h = h
  choose-AtLeast ((f, flag) ∷ l) b n h =
      choose-AtLeast l (consider dist (f, flag) b) n (consider-AtLeast f flag b n h)

  -- Every flagged frame is at most as far as the choice.
  pub choose_max :
      (l : List (ℕ × Bool)) (b : Best) (f : ℕ)
      → lookup f l ≡ some true
      → AtLeast (dist f) (choose dist l b)
  unfolding choose lookup
  choose_max [] b f h = absurd (cc h)
  choose_max ((g, flag) ∷ l) b f h = elim (Bool-cases (g == f)) [
    | inl e ↦
        let same : g ≡ f = ground arith in
        let on : flag ≡ true = ground arith in
        rw (on, same) (choose-AtLeast l (consider dist (f, true) b) (dist f) (consider_self f b))
    | inr e ↦ choose_max l (consider dist (g, flag) b) f (ground arith)
  ]

  consider_from :
      (g : ℕ) (flag : Bool) (b : Best) (f d : ℕ)
      → consider dist (g, flag) b ≡ some (f, d)
      → (b ≡ some (f, d)) ⊎ ((g ≡ f) × (d ≡ dist g))
  unfolding consider
  consider_from g false b f d h = inl h
  consider_from g true none f d h = inr (ground arith, ground arith)
  consider_from g true (some (g', d')) f d h = ground arith

  -- The choice is a frame of the map at its own distance, or the candidate at the start.
  pub choose_from :
      (l : List (ℕ × Bool)) (b : Best) (f d : ℕ)
      → choose dist l b ≡ some (f, d)
      → (b ≡ some (f, d)) ⊎ ((d ≡ dist f) × (v : Bool) × (lookup f l ≡ some v))
  unfolding choose lookup
  choose_from [] b f d h = inl h
  choose_from ((g, flag) ∷ l) b f d h = elim (choose_from l (consider dist (g, flag) b) f d h) [
    | inr (e, v, found) ↦ inr (elim (Bool-cases (g == f)) [
      | inl same ↦ (e, flag, rw same)
      | inr other ↦ (e, v, rw other found)
    ])
    | inl e ↦ elim (consider_from g flag b f d e) [
      | inl old ↦ inl old
      | inr (same, far) ↦ inr (rw (← same) far, flag, ground arith)
    ]
  ]
