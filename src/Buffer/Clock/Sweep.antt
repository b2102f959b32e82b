-- ===== src/Buffer/Clock/Sweep.antt =====
-- What the sweep of `Victim` finds, and when it gives up.
use goods_db.Prelude.{
  ℕ, zero, suc, ◌<◌, ◌≡◌, refl, true, false, none, some, arith, ◌==◌, if◌then◌else◌, get_or, set,
  length, get_or-set_self, get_or-set_ne, Bool-cases, inl, inr, ◌∙◌, ==_iff, sym, ap,
}
use goods_db.Buffer.Clock.{
  FrameState, ClockReplacer, fresh, frame_at, evictable, evict_at_hand, pass_hand, takes, sweep,
}
use goods_db.Buffer.Clock.Valid.{IsValid, pass_hand-IsValid, pass_hand-num_frames}

-- A read after a write in range.
pub frame-set :
    (c : ClockReplacer) (f g : ℕ) (s : FrameState)
    → f < length c.frames
    → get_or (set c.frames f s) g fresh ≡ (if f == g then s else frame_at c g)
frame-set c f g s h = elim (Bool-cases (f == g)) [
  | inl e ↦ rw e (rw (← (==_iff f g).0 e) (get_or-set_self c.frames f s fresh h))
  | inr e ↦ rw e (get_or-set_ne c.frames f g s fresh (λ p. ground arith))
]

pub evictable-pass_hand :
    (c : ClockReplacer) (g : ℕ)
    → 0 < c.num_frames
    → IsValid c
    → evictable (pass_hand c) g ≡ evictable c g
unfolding pass_hand
evictable-pass_hand c g n v = ground (
  arith,
  v.dial,
  v.hand n,
  frame-set c c.clock_hand g (record (frame_at c c.clock_hand) { ref_bit = false }),
)

evictable-evict_at_hand :
    (c : ClockReplacer) (g : ℕ)
    → 0 < c.num_frames
    → IsValid c
    → evictable (evict_at_hand c) g ≡ (if c.clock_hand == g then false else evictable c g)
unfolding evict_at_hand
evictable-evict_at_hand c g n v = ground (
  arith,
  v.dial,
  v.hand n,
  frame-set c c.clock_hand g (record (frame_at c c.clock_hand) { evictable = false }),
)

pub sweep-take :
    (rounds : ℕ) (c : ClockReplacer)
    → takes (frame_at c c.clock_hand) ≡ true
    → sweep (suc rounds) c ≡ (evict_at_hand c, some c.clock_hand)
unfolding sweep
sweep-take rounds c t = rw (t, sweep)

pub sweep-pass :
    (rounds : ℕ) (c : ClockReplacer)
    → takes (frame_at c c.clock_hand) ≡ false
    → sweep (suc rounds) c ≡ sweep rounds (pass_hand c)
unfolding sweep
sweep-pass rounds c t = rw (t, sweep)

takes-evictable : (f : FrameState) → takes f ≡ true → f.evictable ≡ true
unfolding takes
takes-evictable f t = ground arith

-- What the policy promises of a run of `rounds` rounds that evicts.
pub sweep-some :
    (rounds : ℕ) (c : ClockReplacer) (f : ℕ)
    → 0 < c.num_frames
    → IsValid c
    → (sweep rounds c).1 ≡ some f
    → (evictable c f ≡ true)
      × ((g : ℕ) → evictable (sweep rounds c).0 g ≡ (if f == g then false else evictable c g))
sweep-some zero c f n v e = absurd (unfold sweep in cc e)
sweep-some (suc rounds) c f n v e = elim (Bool-cases (takes (frame_at c c.clock_hand))) [
  | inl t ↦
      let h : c.clock_hand ≡ f = ground (arith, sweep-take rounds c t) in
      (
        rw (← h) (takes-evictable _ t),
        λ g. rw (sweep-take rounds c t) (rw (← h) (evictable-evict_at_hand c g n v)),
      )
  | inr t ↦
      let step = sweep-pass rounds c t in
      let (ev, rest) =
        sweep-some rounds (pass_hand c) f (rw (pass_hand-num_frames c) n) (pass_hand-IsValid c n v)
          (rw step at e) in
      (
        sym (evictable-pass_hand c f n v) ∙ ev,
        λ g. rw step (rest g ∙ ap (λ b. if f == g then false else b) (evictable-pass_hand c g n v)),
      )
]

pub sweep-none :
    (rounds : ℕ) (c : ClockReplacer)
    → 0 < c.num_frames
    → IsValid c
    → (sweep rounds c).1 ≡ none
    → (g : ℕ) → evictable (sweep rounds c).0 g ≡ evictable c g
sweep-none zero c n v e g = unfold sweep in refl
sweep-none (suc rounds) c n v e g = elim (Bool-cases (takes (frame_at c c.clock_hand))) [
  | inl t ↦ absurd (cc (sweep-take rounds c t))
  | inr t ↦
      let step = sweep-pass rounds c t in
      rw step (
        sweep-none rounds (pass_hand c) (rw (pass_hand-num_frames c) n) (pass_hand-IsValid c n v)
          (rw step at e) g
        ∙ evictable-pass_hand c g n v)
]
