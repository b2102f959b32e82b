-- ===== src/Prelude/Assoc.antt =====
-- `std::unordered_map` over numeric keys: an association list, in the order in which a loop over
-- the map would visit it. `erase` drops the key, `put` is `m[k] = v`.
use Prim.Native.Nat.{ℕ, ◌+◌}
use mathlib.Core.Path.{◌≡◌, refl}
use mathlib.Core.Bool.{false}
use mathlib.Core.List.{List, [], ◌∷◌}
use mathlib.Core.Option.{Option, none, some}
use native.Mathlib.Omega.{arith}
use mathlib.Core.Logic.{◌⊎◌, inl, inr}
use goods_db.Prelude.Tests.{◌==◌, if◌then◌else◌, Bool-cases}
use goods_db.Prelude.Lists.{length}

module _ {ℓ} {V : Type ℓ} where
  unfoldable pub lookup : ℕ → List (ℕ × V) → Option V
  lookup k [] = none
  lookup k ((j, v) ∷ m) = if j == k then some v else lookup k m

  unfoldable pub erase : ℕ → List (ℕ × V) → List (ℕ × V)
  erase k [] = []
  erase k ((j, v) ∷ m) = if j == k then erase k m else (j, v) ∷ erase k m

  unfoldable pub put : ℕ → V → List (ℕ × V) → List (ℕ × V)
  put k v m = (k, v) ∷ erase k m

  pub lookup-erase :
      (k j : ℕ) (m : List (ℕ × V)) → lookup j (erase k m) ≡ (if k == j then none else lookup j m)
  unfolding lookup erase
  lookup-erase k j [] = ground arith
  lookup-erase k j ((i, v) ∷ m) = ground (arith, lookup-erase k j m)

  pub lookup-put :
      (k j : ℕ) (v : V) (m : List (ℕ × V))
      → lookup j (put k v m) ≡ (if k == j then some v else lookup j m)
  unfolding lookup put
  lookup-put k j v m = ground (arith, lookup-erase k j m)

  pub lookup-put_self : (k : ℕ) (v : V) (m : List (ℕ × V)) → lookup k (put k v m) ≡ some v
  unfolding lookup put
  lookup-put_self k v m = ground arith

  pub lookup-put_ne :
      (k j : ℕ) (v : V) (m : List (ℕ × V)) → (k == j) ≡ false → lookup j (put k v m) ≡ lookup j m
  lookup-put_ne k j v m h = ground (arith, lookup-put k j v m)

  -- What is found after `put` is what was put, or was there before.
  pub put-cases :
      (k j : ℕ) (v w : V) (m : List (ℕ × V))
      → lookup j (put k v m) ≡ some w
      → (k ≡ j) × (v ≡ w) ⊎ (lookup j m ≡ some w)
  put-cases k j v w m h = elim (Bool-cases (k == j)) [
    | inl same ↦ inl (ground arith, ground (arith, lookup-put k j v m))
    | inr other ↦ inr (ground (arith, lookup-put k j v m))
  ]

  pub erase-kept :
      (k j : ℕ) (w : V) (m : List (ℕ × V))
      → lookup j (erase k m) ≡ some w
      → ((k == j) ≡ false) × (lookup j m ≡ some w)
  erase-kept k j w m h = ground (arith, lookup-erase k j m)

  -- No key stands twice.
  abbrev pub Distinct : List (ℕ × V) → Type ℓ
  Distinct [] = Unit {ℓ}
  Distinct ((k, v) ∷ m) = (lookup k m ≡ none) × Distinct m

  pub erase-Distinct : (k : ℕ) (m : List (ℕ × V)) → Distinct m → Distinct (erase k m)
  unfolding erase
  erase-Distinct k [] d = tt
  erase-Distinct k ((j, v) ∷ m) (absent, d) = elim (Bool-cases (j == k)) [
    | inl e ↦ rw e (erase-Distinct k m d)
    | inr e ↦ rw e (ground (arith, lookup-erase k j m), erase-Distinct k m d)
  ]

  pub put-Distinct : (k : ℕ) (v : V) (m : List (ℕ × V)) → Distinct m → Distinct (put k v m)
  unfolding put
  put-Distinct k v m d = (ground (arith, lookup-erase k k m), erase-Distinct k m d)

  pub erase_absent : (k : ℕ) (m : List (ℕ × V)) → lookup k m ≡ none → erase k m ≡ m
  unfolding lookup erase
  erase_absent k [] h = refl
  erase_absent k ((j, v) ∷ m) h = ground (arith, erase_absent k m)

  pub length-erase :
      (k : ℕ) (m : List (ℕ × V)) (v : V)
      → Distinct m
      → lookup k m ≡ some v
      → length (erase k m) + 1 ≡ length m
  unfolding lookup erase
  length-erase k [] v d h = absurd (cc h)
  length-erase k ((j, w) ∷ m) v (absent, d) h = elim (Bool-cases (j == k)) [
    | inl e ↦
        let same : j ≡ k = ground arith in
        rw (e, erase_absent k m (rw same at absent)) (omega arith)
    | inr e ↦ rw e (omega (arith, length-erase k m v d (ground arith)))
  ]
