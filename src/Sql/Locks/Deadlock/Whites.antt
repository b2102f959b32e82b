-- ===== src/Sql/Locks/Deadlock/Whites.antt =====
-- The nodes that the search of goods_db/src/sql/lock_manager.cpp has not coloured.
use mathlib.Core.List.{Memᴰ}
use mathlib.Core.List.Memᴰ
use goods_db.Prelude.{
  ℕ, ◌+◌, ◌≤◌, ◌<◌, ◌≡◌, inl, inr, List, [], ◌∷◌, arith, ◌==◌, if◌then◌else◌, length,
}
use goods_db.Prelude.Assoc.{lookup-put, put}
use goods_db.Sql.Locks.Deadlock.{Colors, color_of}

pub color_of-put :
    (k n c : ℕ) (color : Colors)
    → color_of (put k c color) n ≡ (if k == n then c else color_of color n)
color_of-put k n c color = ground (arith, lookup-put k n c color)

-- The white nodes of a list.
abbrev pub whites : List ℕ → Colors → ℕ
whites [] color = 0
whites (n ∷ ns) color = (if color_of color n == 0 then 1 else 0) + whites ns color

pub whites-length : (ns : List ℕ) (color : Colors) → whites ns color ≤ length ns
whites-length [] color = omega arith
whites-length (n ∷ ns) color = ground (arith, whites-length ns color)

pub whites_le :
    (ns : List ℕ) (color color' : Colors)
    → ((n : ℕ) → color_of color' n ≡ 0 → color_of color n ≡ 0)
    → whites ns color' ≤ whites ns color
whites_le [] color color' h = omega arith
whites_le (n ∷ ns) color color' h = ground (arith, whites_le ns color color' h, h n)

-- To colour a white node of the list leaves fewer.
pub whites-put :
    (ns : List ℕ) (color : Colors) (n : ℕ)
    → Memᴰ n ns
    → color_of color n ≡ 0
    → whites ns (put n 1 color) < whites ns color
whites-put [] color n m w = absurd (Memᴰ.not-nil m)
whites-put (k ∷ ns) color n m w =
    let fewer =
      whites_le ns color (put n 1 color) (λ x e. ground (arith, color_of-put n x 1 color)) in
    elim (Memᴰ.cases_cons m) [
      | inl same ↦ ground (arith, color_of-put n k 1 color)
      | inr later ↦ ground (arith, whites-put ns color n later w, color_of-put n k 1 color)
    ]
