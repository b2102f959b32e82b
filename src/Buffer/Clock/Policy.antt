-- ===== src/Buffer/Clock/Policy.antt =====
-- The clock keeps the promises of `Replacer`.
use goods_db.Prelude.{
  ℕ, ◌<◌, ◌≡◌, true, false, none, some, arith, ◌==◌, if◌then◌else◌, Bool-cases, inl, inr,
  get_or_past,
}
use goods_db.Buffer.Replacer.{Replacer}
use goods_db.Buffer.Clock.{ClockReplacer, evictable, victim, pin, unpin, fresh}
use goods_db.Buffer.Clock.Valid.{
  IsValid, num_frames_pos, victim-IsValid, pin-IsValid, unpin-IsValid,
}
use goods_db.Buffer.Clock.Sweep.{frame-set, sweep-some, sweep-none}
use goods_db.Buffer.Clock.SecondChance.{victim-sweep}

pub victim-some :
    (c : ClockReplacer) (f : ℕ)
    → IsValid c
    → (victim c).1 ≡ some f
    → (evictable c f ≡ true)
      × ((g : ℕ) → evictable (victim c).0 g ≡ (if f == g then false else evictable c g))
victim-some c f v e = elim (Bool-cases (c.size == 0)) [
  | inl z ↦ absurd (unfold victim in ground arith)
  | inr z ↦
      let h : 0 < c.size = ground arith in
      rw (victim-sweep c h)
        (sweep-some c.num_frames c f (num_frames_pos c v h) v (rw (victim-sweep c h) at e))
]

pub victim-none :
    (c : ClockReplacer)
    → IsValid c
    → (victim c).1 ≡ none
    → (g : ℕ) → evictable (victim c).0 g ≡ evictable c g
victim-none c v e g = elim (Bool-cases (c.size == 0)) [
  | inl z ↦ unfold victim in rw z
  | inr z ↦
      let h : 0 < c.size = ground arith in
      rw (victim-sweep c h)
        (sweep-none c.num_frames c (num_frames_pos c v h) v (rw (victim-sweep c h) at e) g)
]

pub evictable-pin :
    (c : ClockReplacer) (f g : ℕ)
    → IsValid c
    → evictable (pin c f) g ≡ (if f == g then false else evictable c g)
unfolding pin
evictable-pin c f g v = ground (
  arith,
  v.dial,
  frame-set c f g (record { evictable = false; ref_bit = true }),
  get_or_past c.frames g fresh,
)

pub evictable-unpin_ne :
    (c : ClockReplacer) (f g : ℕ)
    → IsValid c
    → (f == g) ≡ false
    → evictable (unpin c f) g ≡ evictable c g
unfolding unpin
evictable-unpin_ne c f g v ne =
    ground (arith, v.dial, frame-set c f g (record { evictable = true; ref_bit = true }))

-- `ClockReplacer` as the buffer pool sees it.
abbrev pub clock : Replacer
clock = record {
  State = ClockReplacer;
  victim = victim;
  pin = pin;
  unpin = unpin;
  evictable = evictable;
  IsValid = IsValid;
  victim-IsValid = victim-IsValid;
  pin-IsValid = pin-IsValid;
  unpin-IsValid = unpin-IsValid;
  victim-some = victim-some;
  victim-none = victim-none;
  evictable-pin = evictable-pin;
  evictable-unpin_ne = evictable-unpin_ne;
}
