-- ===== src/Sql/Locks/Deadlock/Search.antt =====
-- The search for a cycle that `DetectDeadlock` of goods_db/src/sql/lock_manager.cpp makes, on any
-- graph.
use mathlib.Core.List.{Memᴰ}
use mathlib.Core.List.Memᴰ
use mathlib.Core.Logic.{⊎_elim}
use goods_db.Prelude.{
  ℕ, zero, suc, ◌≤◌, ◌≡◌, refl, sym, ◌↔◌, ◌⊎◌, inl, inr, List, [], ◌∷◌, arith, ◌==◌, Bool-cases,
}
use goods_db.Prelude.Assoc.{put}
use goods_db.Sql.Locks.Deadlock.{
  Graph, neighbors, Colors, color_of, Answer, cycle, clear, out_of_fuel, unless_cycle, dfs_each,
  blacken, dfs,
}
use goods_db.Sql.Locks.Deadlock.Whites.{color_of-put, whites, whites_le, whites-put}

module _ (graph : Graph) where
  abbrev pub Edge : ℕ → ℕ → Type 0
  Edge a b = Memᴰ b (neighbors graph a)

  pub data Walk (a : ℕ) : ℕ → Type 0 where
    edge : {b : ℕ} → Edge a b → Walk a b
    extend : {b c : ℕ} → Walk a b → Edge b c → Walk a c

  -- No walk from the node is without end.
  pub data Safe : ℕ → Type 0 where
    safe : {a : ℕ} → ((b : ℕ) → Edge a b → Safe b) → Safe a

  abbrev pub AreSafe : Colors → Type 0
  AreSafe color = (x : ℕ) → 2 ≤ color_of color x → Safe x

  -- What a call leaves of the colours: the gray nodes are those from before, black stays black.
  pub record Kept (color color' : Colors) : Type 0 where
    pub blacks : AreSafe color'
    pub grays : (x : ℕ) → (color_of color' x ≡ 1) ↔ (color_of color x ≡ 1)
    pub stays : (x : ℕ) → 2 ≤ color_of color x → 2 ≤ color_of color' x

  pub Kept-refl : (color : Colors) → AreSafe color → Kept color color
  Kept-refl color b = record { blacks = b; grays = λ x. (λ e. e, λ e. e); stays = λ x e. e }

  pub Kept-trans : (a b c : Colors) → Kept a b → Kept b c → Kept a c
  Kept-trans a b c h k = ground arith

  pub Kept-white : (a b : Colors) → Kept a b → (x : ℕ) → color_of b x ≡ 0 → color_of a x ≡ 0
  Kept-white a b h x e = ground (arith, h.grays x, h.stays x)

  -- The answer of a call that was to blacken the nodes of a list.
  abbrev pub Post : List ℕ → Colors → Answer → Type 0
  Post ns color cycle = (x : ℕ) × Walk x x
  Post ns color (clear color') = Kept color color' × ((n : ℕ) → Memᴰ n ns → 2 ≤ color_of color' n)
  Post ns color out_of_fuel = ⊥

  unless_cycle-Post :
      (ns ns' : List ℕ) (color : Colors) (r : Answer) (k : Colors → Answer)
      → Post ns color r
      → ((color' : Colors) → Post ns color (clear color') → Post ns' color (k color'))
      → Post ns' color (unless_cycle r k)
  unfolding unless_cycle
  unless_cycle-Post ns ns' color cycle k p h = p
  unless_cycle-Post ns ns' color (clear color') k p h = h color' p
  unless_cycle-Post ns ns' color out_of_fuel k p h = absurd p

  weaken :
      (ns : List ℕ) (n : ℕ) (a b : Colors) (r : Answer)
      → Kept a b
      → 2 ≤ color_of b n
      → Post ns b r
      → Post (n ∷ ns) a r
  weaken ns n a b cycle h black p = p
  weaken ns n a b (clear c) h black (k, all) = (
    Kept-trans a b c h k,
    λ x m. ⊎_elim (λ e. rw e (k.stays n black)) (all x) (Memᴰ.cases_cons m),
  )
  weaken ns n a b out_of_fuel h black p = p

  -- The colour of a node, in three cases.
  pub color-cases :
      (color : Colors) (n : ℕ)
      → (color_of color n ≡ 0)
        ⊎ (color_of color n ≡ 1)
        ⊎ ((k : ℕ) × (color_of color n ≡ suc (suc k)))
  color-cases color n = number_cases (color_of color n)
    where
      number_cases : (c : ℕ) → (c ≡ 0) ⊎ (c ≡ 1) ⊎ ((k : ℕ) × (c ≡ suc (suc k)))
      number_cases zero = inl refl
      number_cases (suc zero) = inr (inl refl)
      number_cases (suc (suc k)) = inr (inr (k, refl))

  module _ (within : List ℕ) where
    -- What the recursive call does where so much fuel is left.
    abbrev pub Decides : ℕ → (ℕ → Colors → Answer) → Type 0
    Decides fuel visit =
        (n : ℕ) (color : Colors)
        → Memᴰ n within
        → color_of color n ≡ 0
        → whites within color ≤ fuel
        → AreSafe color
        → ((x : ℕ) → color_of color x ≡ 1 → Walk x n)
        → Post (n ∷ []) color (visit n color)

    dfs_each-Post :
        (fuel : ℕ) (visit : ℕ → Colors → Answer)
        → Decides fuel visit
        → (ns : List ℕ) (color : Colors) → ((n : ℕ) → Memᴰ n ns → Memᴰ n within)
        → whites within color ≤ fuel
        → AreSafe color
        → ((n x : ℕ) → Memᴰ n ns → color_of color x ≡ 1 → Walk x n)
        → Post ns color (dfs_each visit ns color)
    unfolding dfs_each
    dfs_each-Post fuel visit ok [] color known w b p =
        (Kept-refl color b, λ n m. absurd (Memᴰ.not-nil m))
    dfs_each-Post fuel visit ok (n ∷ ns) color known w b p =
        let rest = dfs_each-Post fuel visit ok ns in
        let later = λ (x : ℕ) (m : Memᴰ x ns). known x (Memᴰ.tail m) in
        elim (color-cases color n) [
          | inl white ↦
              rw (white, dfs_each)
                (unless_cycle-Post (n ∷ []) (n ∷ ns) color (visit n color) (dfs_each visit ns)
                  (ok n color (known n (Memᴰ.head refl)) white w b (λ x. p n x (Memᴰ.head refl)))
                  (λ color' (h, black).
                    weaken ns n color color' (dfs_each visit ns color') h (black n (Memᴰ.head refl))
                      (rest color' later
                        (omega (arith, whites_le within color color' (Kept-white color color' h)))
                        h.blacks (λ m x q e. p m x (Memᴰ.tail q) ((h.grays x).0 e)))))
          | inr (inl gray) ↦ rw (gray, dfs_each) (n, p n n (Memᴰ.head refl) gray)
          | inr (inr (k, black)) ↦
              rw (black, dfs_each)
                (weaken ns n color color (dfs_each visit ns color) (Kept-refl color b)
                  (omega (arith, black)) (rest color later w b (λ m x q. p m x (Memᴰ.tail q))))
        ]

    -- A node whose neighbors are all black is blackened.
    blacken-Post :
        (n : ℕ) (color : Colors) (r : Answer)
        → color_of color n ≡ 0
        → Post (neighbors graph n) (put n 1 color) r
        → Post (n ∷ []) color (blacken n r)
    unfolding blacken
    blacken-Post n color cycle white p = p
    blacken-Post n color (clear c) white (h, all) =
        let at_end = λ (x : ℕ). color_of-put n x 2 c in
        let at_start = λ (x : ℕ). color_of-put n x 1 color in
        (
          record {
            blacks = λ x e. elim (Bool-cases (n == x)) [
              | inl same ↦
                  let k : n ≡ x = ground arith in rw (sym k) (safe (λ b m. h.blacks b (all b m)))
              | inr apart ↦ h.blacks x (ground (arith, at_end x))
            ];
            grays = λ x. ground (arith, at_end x, at_start x, h.grays x);
            stays = λ x e. ground (arith, at_end x, at_start x, h.stays x);
          },
          λ x m. ground (arith, Memᴰ.eq_of_singleton m, at_end x),
        )
    blacken-Post n color out_of_fuel white p = p

    pub dfs-Decides :
        ((a b : ℕ) → Edge a b → Memᴰ b within) → (fuel : ℕ) → Decides fuel (dfs graph fuel)
    unfolding dfs
    dfs-Decides known zero n color m white w b p =
        absurd (omega (arith, whites-put within color n m white))
    dfs-Decides known (suc fuel) n color m white w b p =
        let at_start = λ (x : ℕ). color_of-put n x 1 color in
        blacken-Post n color (dfs_each (dfs graph fuel) (neighbors graph n) (put n 1 color)) white (
          dfs_each-Post fuel (dfs graph fuel) (dfs-Decides known fuel) (neighbors graph n)
            (put n 1 color) (known n) (omega (arith, whites-put within color n m white))
            (λ x e. b x (ground (arith, at_start x)))
            (λ c x e gray. elim (Bool-cases (n == x)) [
              | inl same ↦ let k : n ≡ x = ground arith in edge (rw (sym k) e)
              | inr apart ↦ extend (p x (ground (arith, at_start x))) e
            ]))
