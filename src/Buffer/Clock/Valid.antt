-- ===== src/Buffer/Clock/Valid.antt =====
-- The invariant of the clock: one entry for each frame, the hand on the dial, an exact count.
use goods_db.Prelude.{
  Bool-cases, inl, inr, ◌∙◌, ℕ, zero, suc, ◌+◌, ◌%◌, ◌≤◌, ◌<◌, ◌≡◌, refl, true, false, List, [],
  ◌∷◌, arith, ◌==◌, if◌then◌else◌, get_or, set, replicate, length, length-set, length-replicate,
}
use goods_db.Buffer.Clock.{
  FrameState, ClockReplacer, fresh, frame_at, init, evict_at_hand, pass_hand, takes, sweep, victim,
  pin, unpin,
}

abbrev weight : FrameState → ℕ
weight f = if f.evictable then 1 else 0

-- How many frames are evictable.
pub count_evictable : List FrameState → ℕ
count_evictable [] = 0
count_evictable (f ∷ fs) = weight f + count_evictable fs

count_evictable-set :
    (fs : List FrameState) (i : ℕ) (f : FrameState)
    → i < length fs
    → count_evictable (set fs i f) + weight (get_or fs i fresh) ≡ count_evictable fs + weight f
unfolding count_evictable
count_evictable-set [] i f h = elim h [ ]
count_evictable-set (g ∷ fs) zero f h = omega arith
count_evictable-set (g ∷ fs) (suc i) f h = omega (arith, count_evictable-set fs i f (omega arith))

count_evictable-replicate : (n : ℕ) → count_evictable (replicate n fresh) ≡ 0
unfolding count_evictable
count_evictable-replicate zero = refl
count_evictable-replicate (suc n) = omega (arith, count_evictable-replicate n)

pub record IsValid (c : ClockReplacer) : Type 0 where
  pub dial : length c.frames ≡ c.num_frames
  pub hand : 0 < c.num_frames → c.clock_hand < c.num_frames
  pub counted : c.size ≡ count_evictable c.frames

pub init-IsValid : (n : ℕ) → IsValid (init n)
unfolding init
init-IsValid n = record {
  dial = length-replicate n fresh;
  hand = λ h. h;
  counted = omega (arith, count_evictable-replicate n);
}

pub pin-IsValid : (c : ClockReplacer) (f : ℕ) → IsValid c → IsValid (pin c f)
unfolding pin
pin-IsValid c f v = ground (
  arith,
  length-set c.frames f (record { evictable = false; ref_bit = true }),
  count_evictable-set c.frames f (record { evictable = false; ref_bit = true }),
)

pub unpin-IsValid : (c : ClockReplacer) (f : ℕ) → IsValid c → IsValid (unpin c f)
unfolding unpin
unpin-IsValid c f v = ground (
  arith,
  length-set c.frames f (record { evictable = true; ref_bit = true }),
  count_evictable-set c.frames f (record { evictable = true; ref_bit = true }),
)

-- A remainder stays on the dial.
mod-hand : (a n : ℕ) → 0 < n → a % n < n
mod-hand a n h = grind arith

pub evict_at_hand-IsValid :
    (c : ClockReplacer)
    → 0 < c.num_frames
    → takes (frame_at c c.clock_hand) ≡ true
    → IsValid c
    → IsValid (evict_at_hand c)
unfolding evict_at_hand takes
evict_at_hand-IsValid c n t v =
    let f : FrameState = record (frame_at c c.clock_hand) { evictable = false } in
    record {
      dial = length-set c.frames c.clock_hand f ∙ v.dial;
      hand = λ _. mod-hand (c.clock_hand + 1) c.num_frames n;
      counted =
          ground (
            arith,
            v.hand n,
            count_evictable-set c.frames c.clock_hand f (omega (arith, v.hand n)),
          );
    }

pub pass_hand-IsValid : (c : ClockReplacer) → 0 < c.num_frames → IsValid c → IsValid (pass_hand c)
unfolding pass_hand
pass_hand-IsValid c n v =
    let f : FrameState = record (frame_at c c.clock_hand) { ref_bit = false } in
    record {
      dial = ground (arith, length-set c.frames c.clock_hand f);
      hand = λ _. mod-hand (c.clock_hand + 1) c.num_frames n;
      counted =
          ground (
            arith,
            v.hand n,
            count_evictable-set c.frames c.clock_hand f (omega (arith, v.hand n)),
          );
    }

pub pass_hand-num_frames : (c : ClockReplacer) → (pass_hand c).num_frames ≡ c.num_frames
unfolding pass_hand
pass_hand-num_frames c = refl

pub sweep-IsValid :
    (rounds : ℕ) (c : ClockReplacer) → 0 < c.num_frames → IsValid c → IsValid (sweep rounds c).0
unfolding sweep
sweep-IsValid zero c n v = v
sweep-IsValid (suc rounds) c n v = elim (Bool-cases (takes (frame_at c c.clock_hand))) [
  | inl t ↦ rw (t, sweep) (evict_at_hand-IsValid c n t v)
  | inr t ↦
      rw (t, sweep)
        (sweep-IsValid rounds (pass_hand c) (rw (pass_hand-num_frames c) n)
          (pass_hand-IsValid c n v))
]

count_evictable-le : (fs : List FrameState) → count_evictable fs ≤ length fs
unfolding count_evictable
count_evictable-le [] = omega arith
count_evictable-le (f ∷ fs) = ground (arith, count_evictable-le fs)

pub num_frames_pos : (c : ClockReplacer) → IsValid c → 0 < c.size → 0 < c.num_frames
num_frames_pos c v h = omega (arith, v.counted, v.dial, count_evictable-le c.frames)

pub victim-IsValid : (c : ClockReplacer) → IsValid c → IsValid (victim c).0
unfolding victim
victim-IsValid c v = elim (Bool-cases (c.size == 0)) [
  | inl e ↦ rw e v
  | inr e ↦ rw e (sweep-IsValid c.num_frames c (num_frames_pos c v (ground arith)) v)
]

-- A clock that counts an evictable frame has one.
evictable_frame :
    (fs : List FrameState)
    → 0 < count_evictable fs
    → (i : ℕ) × (i < length fs) × ((get_or fs i fresh).evictable ≡ true)
unfolding count_evictable
evictable_frame [] h = elim h [ ]
evictable_frame (f ∷ fs) h = elim (Bool-cases f.evictable) [
  | inl e ↦ (0, omega arith, e)
  | inr e ↦ let (i, below, found) = evictable_frame fs (ground arith) in (suc i, omega arith, found)
]

pub has_evictable :
    (c : ClockReplacer)
    → IsValid c
    → 0 < c.size
    → (i : ℕ) × (i < c.num_frames) × ((frame_at c i).evictable ≡ true)
has_evictable c v h =
    let (i, below, found) = evictable_frame c.frames (omega (arith, v.counted)) in
    (i, omega (arith, v.dial), found)
