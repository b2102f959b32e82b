-- ===== src/Buffer/Clock/SecondChance.antt =====
-- When the sweep of `Victim` comes back with nothing, and what the next one finds.
use goods_db.Prelude.{
  ℕ, zero, suc, ◌+◌, ◌-◌, ◌%◌, ◌<◌, ◌≤◌, ◌≡◌, refl, true, false, none, some, arith, ◌==◌,
  Bool-cases, inl, inr, ◌∙◌, ap, subst, ◌≢◌, ltb, get_or_past,
}
use native.Mathlib.Nat.{mod-eq_of_lt, add-mod_right, add-zero}
use goods_db.Buffer.Clock.{
  ClockReplacer, fresh, frame_at, evictable, pass_hand, takes, sweep, victim,
}
use goods_db.Buffer.Clock.Valid.{
  IsValid, pass_hand-IsValid, pass_hand-num_frames, num_frames_pos, has_evictable, victim-IsValid,
  sweep-IsValid,
}
use goods_db.Buffer.Clock.Sweep.{frame-set, sweep-pass}
use goods_db.Buffer.Clock.Passes.{
  Cleared, mod-step, mod-reach, sweep-none-Cleared, not_taken, sweep-finds, sweep-none-same,
}

pub victim-sweep : (c : ClockReplacer) → 0 < c.size → victim c ≡ sweep c.num_frames c
unfolding victim
victim-sweep c h = ground arith

-- Past the end of the dial nothing is evictable.
clear_everywhere :
    (c : ClockReplacer)
    → 0 < c.num_frames
    → IsValid c
    → (sweep c.num_frames c).1 ≡ none
    → (g : ℕ) → Cleared (frame_at (sweep c.num_frames c).0 g)
clear_everywhere c n v e g = elim (Bool-cases (ltb g c.num_frames)) [
  | inl b ↦
      let (k, below, reach) = mod-reach c.clock_hand g c.num_frames (v.hand n) (ground arith) in
      rw (← reach) (sweep-none-Cleared c.num_frames c k n v e below)
  | inr b ↦ λ ev.
      let past = get_or_past (sweep c.num_frames c).0.frames g fresh (
        ground
          (arith, (sweep-IsValid c.num_frames c n v).dial, (sweep-none-same c.num_frames c e).0)) in
      ap (λ f. f.ref_bit) past
]

-- On a valid clock that counts an evictable frame, where a call of `Victim` fails, the next call
-- succeeds.
pub victim_twice :
    (c : ClockReplacer)
    → IsValid c
    → 0 < c.size
    → (victim c).1 ≡ none
    → (f : ℕ) × ((victim (victim c).0).1 ≡ some f)
victim_twice c v h e =
    let n = num_frames_pos c v h in
    let first = victim-sweep c h in
    let e' : (sweep c.num_frames c).1 ≡ none = rw first at e in
    let c' : ClockReplacer = (sweep c.num_frames c).0 in
    let v' : IsValid c' = subst (λ r. IsValid r.0) first (victim-IsValid c v) in
    let (same_dial, same_size) = sweep-none-same c.num_frames c e' in
    let h' : 0 < c'.size = omega arith in
    let n' : 0 < c'.num_frames = omega arith in
    let (g, on_dial, ev) = has_evictable c' v' h' in
    let (k, below, reach) = mod-reach c'.clock_hand g c'.num_frames (v'.hand n') on_dial in
    let (f, found) =
      sweep-finds c'.num_frames c' k n' v' (clear_everywhere c n v e') below
        (ap (evictable c') reach ∙ ev) in
    (f, rw (first, victim-sweep c' h') found)

mod-ne : (h j n : ℕ) → h < n → 0 < j → j < n → (h + j) % n ≢ h
mod-ne h j n p q r e = elim (Bool-cases (ltb (h + j) n)) [
  | inl b ↦ omega (arith, mod-eq_of_lt {n = h + j} {m = n} (ground arith))
  | inr b ↦
      let s : h + j ≡ h + j - n + n = ground arith in
      let m : h + j - n < n = ground arith in
      let w : (h + j) % n ≡ h + j - n =
        ap (λ t. t % n) s ∙ add-mod_right (h + j - n) n ∙ mod-eq_of_lt m in
      omega (arith, w)
]

frame-pass_hand_ne :
    (c : ClockReplacer) (g : ℕ)
    → 0 < c.num_frames
    → IsValid c
    → g ≢ c.clock_hand
    → frame_at (pass_hand c) g ≡ frame_at c g
unfolding pass_hand
frame-pass_hand_ne c g n v ne = ground (
  arith,
  v.dial,
  v.hand n,
  frame-set c c.clock_hand g (record (frame_at c c.clock_hand) { ref_bit = false }),
)

sweep_referenced :
    (rounds : ℕ) (c : ClockReplacer)
    → 0 < c.num_frames
    → IsValid c
    → rounds ≤ c.num_frames
    → ((k : ℕ) → k < rounds → takes (frame_at c ((c.clock_hand + k) % c.num_frames)) ≡ false)
    → (sweep rounds c).1 ≡ none
sweep_referenced zero c n v h all = unfold sweep in refl
sweep_referenced (suc rounds) c n v h all = rw (sweep-pass rounds c here) (
    sweep_referenced rounds (pass_hand c) (rw (pass_hand-num_frames c) n) (pass_hand-IsValid c n v)
      (unfold pass_hand in omega arith) later)
  where
    here : takes (frame_at c c.clock_hand) ≡ false
    here = rw (add-zero, mod-eq_of_lt (v.hand n)) at (all 0 (omega arith))

    later :
        (k : ℕ)
        → k < rounds
        → takes (frame_at (pass_hand c) (((pass_hand c).clock_hand + k) % (pass_hand c).num_frames))
          ≡ false
    later k b =
        let e : ((pass_hand c).clock_hand + k) % (pass_hand c).num_frames
            ≡ (c.clock_hand + suc k) % c.num_frames =
          unfold pass_hand in mod-step c.clock_hand k c.num_frames in
        let same =
          frame-pass_hand_ne c ((c.clock_hand + suc k) % c.num_frames) n v
            (mod-ne c.clock_hand (suc k) c.num_frames (v.hand n) (omega arith) (omega arith)) in
        rw (e, same) (all (suc k) (omega arith))

-- On a valid clock where every evictable frame has its reference bit set, `Victim` fails, however
-- many evictable frames there are.
pub victim_referenced :
    (c : ClockReplacer)
    → IsValid c
    → ((g : ℕ) → evictable c g ≡ true → (frame_at c g).ref_bit ≡ true)
    → (victim c).1 ≡ none
victim_referenced c v all = elim (Bool-cases (c.size == 0)) [
  | inl e ↦ unfold victim in rw e
  | inr e ↦
      let h : 0 < c.size = ground arith in
      rw (victim-sweep c h) (
        sweep_referenced c.num_frames c (num_frames_pos c v h) v (omega arith)
          (λ k _. not_taken _ (all _)))
]
