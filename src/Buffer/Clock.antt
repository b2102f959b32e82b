-- ===== src/Buffer/Clock.antt =====
-- goods_db/src/buffer/clock_replacer.cpp: the clock (second chance) policy.
use goods_db.Prelude.{
  ℕ, zero, suc, ◌+◌, ◌-◌, ◌%◌, ◌≡◌, Bool, true, false, List, Option, none, some, ltb, ◌==◌,
  if◌then◌else◌, get_or, set, replicate,
}
pub mod Valid
pub mod Sweep
pub mod Passes
pub mod SecondChance
pub mod Policy

pub record FrameState : Type 0 where
  pub evictable : Bool
  pub ref_bit : Bool

abbrev pub fresh : FrameState
fresh = record { evictable = false; ref_bit = false }

pub record ClockReplacer : Type 0 where
  pub num_frames : ℕ
  pub frames : List FrameState
  pub clock_hand : ℕ
  pub size : ℕ

-- `frames_[i]`
abbrev pub frame_at : ClockReplacer → ℕ → FrameState
frame_at c i = get_or c.frames i fresh

unfoldable pub init : ℕ → ClockReplacer
init n = record { num_frames = n; frames = replicate n fresh; clock_hand = 0; size = 0 }

-- The body of the loop of `Victim` at the hand, where it evicts.
unfoldable pub evict_at_hand : ClockReplacer → ClockReplacer
evict_at_hand c = record c {
  frames = set c.frames c.clock_hand (record (frame_at c c.clock_hand) { evictable = false });
  size = c.size - 1;
  clock_hand = (c.clock_hand + 1) % c.num_frames;
}

-- The body of the loop where it goes on: a second chance for an evictable frame.
unfoldable pub pass_hand : ClockReplacer → ClockReplacer
pass_hand c = record c {
  frames =
      if (frame_at c c.clock_hand).evictable
      then set c.frames c.clock_hand (record (frame_at c c.clock_hand) { ref_bit = false })
      else c.frames;
  clock_hand = (c.clock_hand + 1) % c.num_frames;
}

-- `frame.evictable && !frame.ref_bit`
unfoldable pub takes : FrameState → Bool
takes f = if f.evictable then (if f.ref_bit then false else true) else false

-- The loop of `Victim`: the rounds left are `num_frames_ - scanned`.
unfoldable pub sweep : ℕ → ClockReplacer → ClockReplacer × Option ℕ
sweep zero c = (c, none)
sweep (suc rounds) c = elim (takes (frame_at c c.clock_hand)) [
  | true ↦ (evict_at_hand c, some c.clock_hand)
  | false ↦ sweep rounds (pass_hand c)
]

unfoldable pub victim : ClockReplacer → ClockReplacer × Option ℕ
victim c = if c.size == 0 then (c, none) else sweep c.num_frames c

unfoldable pub pin : ClockReplacer → ℕ → ClockReplacer
pin c f =
    if ltb f c.num_frames
    then (if (frame_at c f).evictable
        then record c {
          frames = set c.frames f (record { evictable = false; ref_bit = true });
          size = c.size - 1;
        }
        else c)
    else c

unfoldable pub unpin : ClockReplacer → ℕ → ClockReplacer
unpin c f =
    if ltb f c.num_frames
    then (if (frame_at c f).evictable then c else record c {
      frames = set c.frames f (record { evictable = true; ref_bit = true });
      size = c.size + 1;
    })
    else c

-- The frames that the policy holds evictable.
abbrev pub evictable : ClockReplacer → ℕ → Bool
evictable c f = (frame_at c f).evictable
