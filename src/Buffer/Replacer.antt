-- ===== src/Buffer/Replacer.antt =====
-- goods_db/src/include/buffer/replacer.h: the abstract class `Replacer`, with what the buffer
-- pool relies on.
use goods_db.Prelude.{ℕ, ◌≡◌, Bool, true, false, ◌==◌, if◌then◌else◌, Option, none, some}
pub mod Calls

-- A policy: its state, its three calls, and the set of frames that it holds evictable.
-- `victim` gives `none` where the C++ returns false.
pub record Replacer : Type 1 where
  pub State : Type 0
  pub victim : State → State × Option ℕ
  pub pin : State → ℕ → State
  pub unpin : State → ℕ → State
  pub evictable : State → ℕ → Bool
  pub IsValid : State → Type 0
  pub victim-IsValid : (s : State) → IsValid s → IsValid (victim s).0
  pub pin-IsValid : (s : State) (f : ℕ) → IsValid s → IsValid (pin s f)
  pub unpin-IsValid : (s : State) (f : ℕ) → IsValid s → IsValid (unpin s f)
  -- A victim was evictable, is no longer, and no other frame is touched.
  pub victim-some :
      (s : State) (f : ℕ)
      → IsValid s
      → (victim s).1 ≡ some f
      → (evictable s f ≡ true)
        × ((g : ℕ) → evictable (victim s).0 g ≡ (if f == g then false else evictable s g))
  pub victim-none :
      (s : State)
      → IsValid s
      → (victim s).1 ≡ none
      → (g : ℕ) → evictable (victim s).0 g ≡ evictable s g
  pub evictable-pin :
      (s : State) (f g : ℕ)
      → IsValid s
      → evictable (pin s f) g ≡ (if f == g then false else evictable s g)
  -- `unpin` makes no other frame evictable.
  pub evictable-unpin_ne :
      (s : State) (f g : ℕ) → IsValid s → (f == g) ≡ false → evictable (unpin s f) g ≡ evictable s g
