-- ===== src/Types/Schema/Columns.antt =====
-- Finding columns by name in goods_db/src/type/schema.cpp.
use goods_db.Prelude.{
  ℕ, suc, ◌+◌, ◌<◌, ◌≡◌, ◌≢◌, refl, true, false, List, [], ◌∷◌, none, some, arith, length, get_or,
  ap, sym, ◌∙◌, Bool-cases, ◌⊎◌, inl, inr, take, ◌+◌,
}
use goods_db.Types.Schema.{Column, Schema, same_name, col_idx_from, get_col_idx}

pub same_name-eq : (l m : List ℕ) → same_name l m ≡ true → l ≡ m
unfolding same_name
same_name-eq [] [] h = refl
same_name-eq [] (y ∷ m) h = absurd (cc h)
same_name-eq (x ∷ l) [] h = absurd (cc h)
same_name-eq (x ∷ l) (y ∷ m) h =
    let first : x ≡ y = ground arith in
    let rest = same_name-eq l m (ground arith) in cc (first, rest)

pub same_name_refl : (l : List ℕ) → same_name l l ≡ true
unfolding same_name
same_name_refl [] = refl
same_name_refl (x ∷ l) = ground (arith, same_name_refl l)

abbrev pub no_column : Column
no_column = record {
  column_name = [];
  column_type = goods_db.Types.Schema.invalid;
  max_length = 0;
  is_nullable = true;
  is_primary_key = false;
}

-- The name of the column at an index.
abbrev pub name_at : Schema → ℕ → List ℕ
name_at columns i = (get_or columns i no_column).column_name

differs : (l m : List ℕ) → same_name l m ≡ false → l ≢ m
differs l m h e = absurd (cc (sym (same_name_refl m) ∙ ap (λ x. same_name x m) (sym e) ∙ h))

-- No column has the name.
abbrev pub Unnamed : Schema → List ℕ → Type 0
Unnamed [] name = Unit {0}
Unnamed (c ∷ columns) name = (c.column_name ≢ name) × Unnamed columns name

-- The first column of the name is at index `i`.
pub record IsFirst (columns : Schema) (name : List ℕ) (i : ℕ) : Type 0 where
  pub within : i < length columns
  pub named : name_at columns i ≡ name
  pub before : Unnamed (take i columns) name

-- What the loop answers from index `start` on.
abbrev Answers : Schema → List ℕ → ℕ → Type 0
Answers columns name start =
    ((col_idx_from columns name start ≡ none) × Unnamed columns name)
    ⊎ ((d : ℕ) × (col_idx_from columns name start ≡ some (start + d)) × IsFirst columns name d)

col_idx_from-Answers : (columns : Schema) (name : List ℕ) (start : ℕ) → Answers columns name start
unfolding col_idx_from
col_idx_from-Answers [] name start = inl (refl, tt)
col_idx_from-Answers (c ∷ columns) name start = elim (Bool-cases (same_name c.column_name name)) [
  | inl same ↦ inr (
    0,
    rw same (ap some (omega arith)),
    record { within = omega arith; named = same_name-eq c.column_name name same; before = tt },
  )
  | inr other ↦
      let ne = differs c.column_name name other in
      elim (col_idx_from-Answers columns name (start + 1)) [
        | inl (none_found, unnamed) ↦ inl (rw other none_found, (ne, unnamed))
        | inr (d, found, f) ↦ inr (
          suc d,
          rw (other, found) (ap some (omega arith)),
          record { within = omega (arith, f.within); named = f.named; before = (ne, f.before) },
        )
      ]
]

-- `GetColIdx` gives the index of the first column of the name, or else -1 where no column has it.
pub get_col_idx_lem :
    (columns : Schema) (name : List ℕ)
    → ((get_col_idx columns name ≡ none) × Unnamed columns name)
      ⊎ ((i : ℕ) × (get_col_idx columns name ≡ some i) × IsFirst columns name i)
unfolding get_col_idx
get_col_idx_lem columns name = elim (col_idx_from-Answers columns name 0) [
  | inl answer ↦ inl answer
  | inr (d, found, f) ↦ inr (d, found ∙ ap some (omega arith), f)
]
