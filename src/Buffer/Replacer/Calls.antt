-- ===== src/Buffer/Replacer/Calls.antt =====
-- Histories of the calls of goods_db/src/include/buffer/replacer.h, of any policy.
use goods_db.Prelude.{
  ℕ, ◌≡◌, ◌≢◌, Bool, true, false, List, [], ◌∷◌, some, arith, ◌==◌, if◌then◌else◌, Option-cases,
  inl, inr,
}
use goods_db.Buffer.Replacer.{Replacer}

pub data Call : Type 0 where
  evict : Call
  pin : ℕ → Call
  unpin : ℕ → Call

abbrev pub unpins : ℕ → List Call → Bool
unpins f [] = false
unpins f (evict ∷ l) = unpins f l
unpins f (pin g ∷ l) = unpins f l
unpins f (unpin g ∷ l) = if g == f then true else unpins f l

module _ (R : Replacer) where
  abbrev pub step : R.State → Call → R.State
  step s evict = (R.victim s).0
  step s (pin f) = R.pin s f
  step s (unpin f) = R.unpin s f

  abbrev pub run : R.State → List Call → R.State
  run s [] = s
  run s (c ∷ l) = run (step s c) l

  evict_withheld :
      (s : R.State) (f : ℕ)
      → R.IsValid s
      → R.evictable s f ≡ false
      → R.evictable (R.victim s).0 f ≡ false
  evict_withheld s f v h = elim (Option-cases (R.victim s).1) [
    | inl none_found ↦ ground (arith, R.victim-none s v none_found f)
    | inr (g, found) ↦ ground (arith, (R.victim-some s g v found).1 f)
  ]

  run-IsValid : (s : R.State) (l : List Call) → R.IsValid s → R.IsValid (run s l)
  run-IsValid s [] v = v
  run-IsValid s (evict ∷ l) v = run-IsValid (R.victim s).0 l (R.victim-IsValid s v)
  run-IsValid s (pin g ∷ l) v = run-IsValid (R.pin s g) l (R.pin-IsValid s g v)
  run-IsValid s (unpin g ∷ l) v = run-IsValid (R.unpin s g) l (R.unpin-IsValid s g v)

  withheld-run :
      (s : R.State) (f : ℕ) (l : List Call)
      → R.IsValid s
      → R.evictable s f ≡ false
      → unpins f l ≡ false
      → (R.victim (run s l)).1 ≢ some f
  withheld-run s f [] v h u = λ e. ground (arith, (R.victim-some s f v e).0)
  withheld-run s f (evict ∷ l) v h u =
      withheld-run (R.victim s).0 f l (R.victim-IsValid s v) (evict_withheld s f v h) u
  withheld-run s f (pin g ∷ l) v h u =
      withheld-run (R.pin s g) f l (R.pin-IsValid s g v) (ground (arith, R.evictable-pin s g f v)) u
  withheld-run s f (unpin g ∷ l) v h u =
      let other : (g == f) ≡ false = ground arith in
      withheld-run (R.unpin s g) f l (R.unpin-IsValid s g v)
        (ground (arith, R.evictable-unpin_ne s g f v other)) (ground arith)

  -- What is pinned is no victim until it is unpinned.
  pub spared-pin :
      (s : R.State) (f : ℕ) (before after : List Call)
      → R.IsValid s
      → unpins f after ≡ false
      → (R.victim (run (R.pin (run s before) f) after)).1 ≢ some f
  spared-pin s f before after v u =
      let at = run-IsValid s before v in
      withheld-run (R.pin (run s before) f) f after (R.pin-IsValid (run s before) f at)
        (ground (arith, R.evictable-pin (run s before) f f at)) u
