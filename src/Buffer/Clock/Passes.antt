-- ===== src/Buffer/Clock/Passes.antt =====
-- One turn of the hand of goods_db/src/buffer/clock_replacer.cpp: the frames that it passes.
use goods_db.Prelude.{
  ℕ, zero, suc, ◌+◌, ◌-◌, ◌%◌, ◌<◌, ◌≡◌, refl, true, false, none, some, arith, Bool-cases, inl, inr,
  ◌∙◌, ap, leb,
}
use native.Mathlib.Nat.{mod-eq_of_lt, mod-add-mod, add-mod_right, add-zero}
use goods_db.Buffer.Clock.{FrameState, ClockReplacer, frame_at, evictable, pass_hand, takes, sweep}
use goods_db.Buffer.Clock.Valid.{IsValid, pass_hand-IsValid, pass_hand-num_frames}
use goods_db.Buffer.Clock.Sweep.{frame-set, sweep-pass, sweep-take, evictable-pass_hand}

-- An evictable frame that has had its second chance, or a frame that is not evictable.
abbrev pub Cleared : FrameState → Type 0
Cleared f = f.evictable ≡ true → f.ref_bit ≡ false

pass_hand-Cleared_hand :
    (c : ClockReplacer)
    → 0 < c.num_frames
    → IsValid c
    → Cleared (frame_at (pass_hand c) c.clock_hand)
unfolding pass_hand
pass_hand-Cleared_hand c n v h = ground (
  arith,
  v.dial,
  v.hand n,
  frame-set c c.clock_hand c.clock_hand (record (frame_at c c.clock_hand) { ref_bit = false }),
)

pass_hand-Cleared :
    (c : ClockReplacer) (g : ℕ)
    → 0 < c.num_frames
    → IsValid c
    → Cleared (frame_at c g)
    → Cleared (frame_at (pass_hand c) g)
unfolding pass_hand
pass_hand-Cleared c g n v k h = ground (
  arith,
  v.dial,
  v.hand n,
  frame-set c c.clock_hand g (record (frame_at c c.clock_hand) { ref_bit = false }),
)

sweep-Cleared :
    (rounds : ℕ) (c : ClockReplacer) (g : ℕ)
    → 0 < c.num_frames
    → IsValid c
    → (sweep rounds c).1 ≡ none
    → Cleared (frame_at c g)
    → Cleared (frame_at (sweep rounds c).0 g)
sweep-Cleared zero c g n v e k = unfold sweep in k
sweep-Cleared (suc rounds) c g n v e k = elim (Bool-cases (takes (frame_at c c.clock_hand))) [
  | inl t ↦ absurd (cc (sweep-take rounds c t))
  | inr t ↦
      let step = sweep-pass rounds c t in
      rw step (
        sweep-Cleared rounds (pass_hand c) g (rw (pass_hand-num_frames c) n)
          (pass_hand-IsValid c n v) (rw step at e) (pass_hand-Cleared c g n v k))
]

pub mod-step : (h k n : ℕ) → ((h + 1) % n + k) % n ≡ (h + suc k) % n
mod-step h k n = mod-add-mod (h + 1) n k ∙ ap (λ s. s % n) (omega arith)

-- The hand reaches every frame within one round of the dial.
pub mod-reach : (h g n : ℕ) → h < n → g < n → (k : ℕ) × (k < n) × ((h + k) % n ≡ g)
mod-reach h g n p q = elim (Bool-cases (leb h g)) [
  | inl e ↦ (
    g - h,
    ground arith,
    ap (λ s. s % n) (let s : h + (g - h) ≡ g = ground arith in s) ∙ mod-eq_of_lt q,
  )
  | inr e ↦ (
    g + n - h,
    ground arith,
    ap (λ s. s % n) (let s : h + (g + n - h) ≡ g + n = ground arith in s)
        ∙ add-mod_right g n
        ∙ mod-eq_of_lt q,
  )
]

-- A sweep that finds nothing passes the hand.
sweep-none-pass :
    (rounds : ℕ) (c : ClockReplacer)
    → (sweep (suc rounds) c).1 ≡ none
    → sweep (suc rounds) c ≡ sweep rounds (pass_hand c)
sweep-none-pass rounds c e = elim (Bool-cases (takes (frame_at c c.clock_hand))) [
  | inl t ↦ absurd (cc (sweep-take rounds c t))
  | inr t ↦ sweep-pass rounds c t
]

-- A sweep that finds nothing has cleared every frame that it passed.
pub sweep-none-Cleared :
    (rounds : ℕ) (c : ClockReplacer) (k : ℕ)
    → 0 < c.num_frames
    → IsValid c
    → (sweep rounds c).1 ≡ none
    → k < rounds
    → Cleared (frame_at (sweep rounds c).0 ((c.clock_hand + k) % c.num_frames))
unfolding pass_hand
sweep-none-Cleared zero c k n v e h = elim h [ ]
sweep-none-Cleared (suc rounds) c zero n v e h =
    let step = sweep-none-pass rounds c e in
    rw (step, add-zero, mod-eq_of_lt (v.hand n))
      (sweep-Cleared rounds (pass_hand c) c.clock_hand (rw (pass_hand-num_frames c) n)
        (pass_hand-IsValid c n v) (rw step at e) (pass_hand-Cleared_hand c n v))
sweep-none-Cleared (suc rounds) c (suc k) n v e h =
    let step = sweep-none-pass rounds c e in
    rw (step, ← mod-step c.clock_hand k c.num_frames)
      (sweep-none-Cleared rounds (pass_hand c) k (rw (pass_hand-num_frames c) n)
        (pass_hand-IsValid c n v) (rw step at e) (omega arith))

Cleared-takes : (f : FrameState) → f.evictable ≡ true → Cleared f → takes f ≡ true
unfolding takes
Cleared-takes f ev k = rw (ev, k ev)

pub not_taken : (f : FrameState) → (f.evictable ≡ true → f.ref_bit ≡ true) → takes f ≡ false
unfolding takes
not_taken f h = elim (Bool-cases f.evictable) [ inl e ↦ rw (e, h e) | inr e ↦ rw e ]

-- With every frame cleared, the sweep takes the first evictable frame that it meets.
pub sweep-finds :
    (rounds : ℕ) (c : ClockReplacer) (k : ℕ)
    → 0 < c.num_frames
    → IsValid c
    → ((g : ℕ) → Cleared (frame_at c g))
    → k < rounds
    → evictable c ((c.clock_hand + k) % c.num_frames) ≡ true
    → (f : ℕ) × ((sweep rounds c).1 ≡ some f)
unfolding pass_hand
sweep-finds zero c k n v clear h ev = elim h [ ]
sweep-finds (suc rounds) c zero n v clear h ev =
    let at_hand : evictable c c.clock_hand ≡ true = rw (add-zero, mod-eq_of_lt (v.hand n)) at ev in
    (c.clock_hand, rw (sweep-take rounds c (Cleared-takes _ at_hand (clear c.clock_hand))))
sweep-finds (suc rounds) c (suc k) n v clear h ev =
    elim (Bool-cases (takes (frame_at c c.clock_hand))) [
      | inl t ↦ (c.clock_hand, rw (sweep-take rounds c t))
      | inr t ↦ rw (sweep-pass rounds c t) (
          sweep-finds rounds (pass_hand c) k n (pass_hand-IsValid c n v)
            (λ g. pass_hand-Cleared c g n v (clear g)) (omega arith)
            (evictable-pass_hand c _ n v
              ∙ ap (evictable c) (mod-step c.clock_hand k c.num_frames)
              ∙ ev))
    ]

-- A sweep that finds nothing changes neither the dial nor the count.
pub sweep-none-same :
    (rounds : ℕ) (c : ClockReplacer)
    → (sweep rounds c).1 ≡ none
    → ((sweep rounds c).0.num_frames ≡ c.num_frames) × ((sweep rounds c).0.size ≡ c.size)
unfolding pass_hand
sweep-none-same zero c e = unfold sweep in (refl, refl)
sweep-none-same (suc rounds) c e =
    let step = sweep-none-pass rounds c e in
    rw step (sweep-none-same rounds (pass_hand c) (rw step at e))
