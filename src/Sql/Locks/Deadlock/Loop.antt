-- ===== src/Sql/Locks/Deadlock/Loop.antt =====
-- The loop of `DetectDeadlock` of goods_db/src/sql/lock_manager.cpp over the map, on any graph.
use mathlib.Core.List.{Memᴰ}
use mathlib.Core.List.Memᴰ
use mathlib.Core.Logic.{⊎_elim}
use goods_db.Prelude.{
  ℕ, ◌≤◌, ◌≡◌, refl, ◌≢◌, inl, inr, Bool, true, false, List, [], ◌∷◌, none, arith, Bool-cases,
  Option-cases,
}
use goods_db.Prelude.Assoc.{lookup}
use goods_db.Sql.Locks.Deadlock.{
  Graph, Colors, color_of, Answer, cycle, clear, out_of_fuel, Detection, answered, locked_twice,
  invalid_iterator, no_fuel, rehashed, proceed, keys, search_from,
}
use goods_db.Sql.Locks.Deadlock.Whites.{whites, whites_le}
use goods_db.Sql.Locks.Deadlock.Search.{
  Walk, AreSafe, Kept, Kept-refl, Kept-trans, Kept-white, Post, color-cases, Decides,
}

-- The key on which the map rehashed.
pub rehashed-key :
    (rehashes : ℕ → Bool) (graph : Graph) (color : Colors)
    → rehashed rehashes graph color ≡ true
    → (n : ℕ) × (rehashes n ≡ true) × (lookup n graph ≡ none)
unfolding rehashed
rehashed-key rehashes graph [] h = absurd (cc h)
rehashed-key rehashes graph ((n, c) ∷ color) h = elim (Option-cases (lookup n graph)) [
  | inr (ns, there) ↦ rehashed-key rehashes graph color (rw (there, rehashed) at h)
  | inl new ↦ elim (Bool-cases (rehashes n)) [
    | inl moved ↦ (n, moved, new)
    | inr stays ↦ rehashed-key rehashes graph color (rw (new, stays, rehashed) at h)
  ]
]

module _ (graph : Graph) (moved : Colors → Bool) where
  -- What holds where the loop ends that was to blacken the nodes of a list.
  abbrev pub Ended : List ℕ → Colors → Detection → Type 0
  Ended ns color (answered true) = (x : ℕ) × Walk graph x x
  Ended ns color (answered false) =
      (color' : Colors) × Kept graph color color' × ((n : ℕ) → Memᴰ n ns → 2 ≤ color_of color' n)
  Ended ns color invalid_iterator = (color' : Colors) × (moved color' ≡ true)
  Ended ns color locked_twice = ⊥
  Ended ns color no_fuel = ⊥

  weaken :
      (ns : List ℕ) (n : ℕ) (a b : Colors) (r : Detection)
      → Kept graph a b
      → 2 ≤ color_of b n
      → Ended ns b r
      → Ended (n ∷ ns) a r
  weaken ns n a b (answered true) h black p = p
  weaken ns n a b (answered false) h black (c, k, all) = (
    c,
    Kept-trans graph a b c h k,
    λ x m. ⊎_elim (λ e. rw e (k.stays n black)) (all x) (Memᴰ.cases_cons m),
  )
  weaken ns n a b invalid_iterator h black p = p
  weaken ns n a b locked_twice h black p = p
  weaken ns n a b no_fuel h black p = p

  proceed-Ended :
      (ns ns' : List ℕ) (color : Colors) (r : Answer) (rest : Colors → Detection)
      → Post graph ns color r
      → ((color' : Colors) → Post graph ns color (clear color') → Ended ns' color (rest color'))
      → Ended ns' color (proceed moved r rest)
  unfolding proceed
  proceed-Ended ns ns' color cycle rest p h = p
  proceed-Ended ns ns' color (clear color') rest p h = elim (Bool-cases (moved color')) [
    | inl lost ↦ rw lost (color', lost)
    | inr well ↦ rw well (h color' p)
  ]
  proceed-Ended ns ns' color out_of_fuel rest p h = absurd p

  -- No node is gray where the loop over the nodes stands.
  pub search_from-Ended :
      (within : List ℕ) (fuel : ℕ) (visit : ℕ → Colors → Answer)
      → Decides graph within fuel visit
      → (rest : Graph) (color : Colors) → ((n : ℕ) → Memᴰ n (keys rest) → Memᴰ n within)
      → whites within color ≤ fuel
      → AreSafe graph color
      → ((x : ℕ) → color_of color x ≢ 1)
      → Ended (keys rest) color (search_from moved visit rest color)
  unfolding search_from
  search_from-Ended within fuel visit ok [] color known w b free =
      (color, Kept-refl graph color b, λ n m. absurd (Memᴰ.not-nil m))
  search_from-Ended within fuel visit ok ((n, l) ∷ rest) color known w b free =
      let onward = search_from-Ended within fuel visit ok rest in
      let later = λ (x : ℕ) (m : Memᴰ x (keys rest)). known x (Memᴰ.tail m) in
      elim (color-cases graph color n) [
        | inl white ↦
            rw (white, search_from)
              (proceed-Ended (n ∷ []) (keys ((n, l) ∷ rest)) color (visit n color)
                (search_from moved visit rest)
                (ok n color (known n (Memᴰ.head refl)) white w b (λ x e. absurd (free x e)))
                (λ color' (h, black).
                  weaken (keys rest) n color color' (search_from moved visit rest color') h
                    (black n (Memᴰ.head refl))
                    (onward color' later
                      (omega
                        (arith, whites_le within color color' (Kept-white graph color color' h)))
                      h.blacks (λ x e. free x ((h.grays x).0 e)))))
        | inr (inl gray) ↦ absurd (free n gray)
        | inr (inr (k, black)) ↦
            rw (black, search_from)
              (weaken (keys rest) n color color (search_from moved visit rest color)
                (Kept-refl graph color b) (omega (arith, black)) (onward color later w b free))
      ]
