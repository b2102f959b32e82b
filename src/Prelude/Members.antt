-- ===== src/Prelude/Members.antt =====
-- Lists of numbers as sets: membership, and that no number stands twice.
use Prim.Native.Nat.{ℕ}
use mathlib.Core.Path.{◌≡◌, refl}
use mathlib.Core.List.{List, [], ◌∷◌, ◌++◌}
use mathlib.Core.Bool.{Bool, true, false}
use native.Mathlib.Omega.{arith}
use goods_db.Prelude.Tests.{◌==◌, if◌then◌else◌}

abbrev pub member : ℕ → List ℕ → Bool
member f [] = false
member f (g ∷ l) = if f == g then true else member f l

abbrev pub Once : List ℕ → Type 0
Once [] = Unit {0}
Once (f ∷ l) = (member f l ≡ false) × Once l

pub member-append :
    (g f : ℕ) (l : List ℕ) → member g (l ++ f ∷ []) ≡ (if g == f then true else member g l)
member-append g f [] = refl
member-append g f (h ∷ l) = ground (arith, member-append g f l)

pub Once-append : (f : ℕ) (l : List ℕ) → Once l → member f l ≡ false → Once (l ++ f ∷ [])
Once-append f [] o m = (refl, tt)
Once-append f (g ∷ l) o m =
    (ground (arith, member-append g f l), Once-append f l o.1 (ground arith))
