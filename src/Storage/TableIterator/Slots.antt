-- ===== src/Storage/TableIterator/Slots.antt =====
-- The rows of a page, and the loops of goods_db/src/storage/table/table_iterator.cpp over its
-- slots.
use goods_db.Prelude.{
  ℕ, zero, suc, ◌+◌, ◌-◌, ◌<◌, ◌≡◌, refl, List, [], ◌∷◌, none, some, arith, if◌then◌else◌,
  Bool-cases, inl, inr, ap, ◌∙◌,
}
use goods_db.Prelude.Bytes.{Bytes}
use goods_db.Storage.TablePage.{is_deleted, get_slot_count}
use goods_db.Storage.TablePage
use goods_db.Storage.TableIterator.{Row, first_live}

abbrev pub row_at : ℕ → Bytes → ℕ → Row
row_at p m i = (record { page_id = p; slot_id = i }, TablePage.get_tuple m i)

-- The rows in `n` slots from `i` on.
unfoldable pub slots_from : ℕ → Bytes → ℕ → ℕ → List Row
slots_from p m zero i = []
slots_from p m (suc n) i =
    let rest = slots_from p m n (i + 1) in if is_deleted m i then rest else row_at p m i ∷ rest

abbrev pub slots : ℕ → Bytes → List Row
slots p m = slots_from p m (get_slot_count m) 0

-- The rows behind slot `i`.
abbrev pub slots_behind : ℕ → Bytes → ℕ → List Row
slots_behind p m i = slots_from p m (get_slot_count m - (i + 1)) (i + 1)

pub first_live-none :
    (p : ℕ) (m : Bytes) (n i : ℕ) → first_live m n i ≡ none → slots_from p m n i ≡ []
unfolding first_live slots_from
first_live-none p m zero i h = refl
first_live-none p m (suc n) i h = elim (Bool-cases (is_deleted m i)) [
  | inl gone ↦ rw gone (first_live-none p m n (i + 1) (rw gone at h))
  | inr there ↦ absurd (ground (arith, there))
]

pub first_live-some :
    (p : ℕ) (m : Bytes) (n i j c : ℕ)
    → i + n ≡ c
    → first_live m n i ≡ some j
    → (j < c) × (slots_from p m n i ≡ row_at p m j ∷ slots_from p m (c - (j + 1)) (j + 1))
unfolding first_live slots_from
first_live-some p m zero i j c e h = absurd (cc h)
first_live-some p m (suc n) i j c e h = elim (Bool-cases (is_deleted m i)) [
  | inl gone ↦ rw gone (first_live-some p m n (i + 1) j c (omega (arith, e)) (rw gone at h))
  | inr there ↦
      let same : i ≡ j = ground (arith, there) in
      let left : n ≡ c - (i + 1) = omega (arith, e) in
      (
        omega (arith, same, e),
        rw there (
            ap (λ k. row_at p m i ∷ slots_from p m k (i + 1)) left
            ∙ ap (λ k. row_at p m k ∷ slots_from p m (c - (k + 1)) (k + 1)) same),
      )
]
