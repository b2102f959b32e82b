-- ===== src/Storage/Tuple/Layout.antt =====
-- The columns that goods_db/src/storage/table/tuple.cpp has written read back from where they lie.
use goods_db.Prelude.{
  ℕ, ◌+◌, ◌^◌, ◌≤◌, ◌<◌, ◌≡◌, refl, true, false, List, ◌∷◌, arith, inl, inr, Bool-cases, length, ap,
  ◌∙◌, sym,
}
use goods_db.Prelude.Bytes.{Bytes, write_bytes}
use goods_db.Types.Schema.{Column, Schema, type_id_size}
use goods_db.Types.Value.{Value, get_type_id, value_bytes, deserialize_from}
use goods_db.Types.Value.Stored.{Fits, deserialize_from-value_bytes}
use goods_db.Storage.Tuple.{
  Texts, varchar_type, is_varchar, is_null, write_varchar, deserialize_value, read_varchar,
}
use goods_db.Storage.Tuple.Columns.{
  Matches, null, typed, AllMatch, string_of, cell_of, laid, string_sizes,
}
use goods_db.Storage.Tuple.Areas.{
  read_varchar-kept, Areas, one_string, one_cell, laid-byte, read_cell, varchar-string_of,
  deserialize_value_cong, deserialize_value-deserialize_from,
}

-- The first column of those that are written.
module _ (L : Texts) (c : Column) (columns : Schema) (x : Value) (values : List Value) (f v t : ℕ)
    (m : Bytes) where
  pub record First : Type 0 where
    pub this : Matches c x
    pub rest : AllMatch columns values
    pub areas : Areas (c ∷ columns) f v t
    pub small : t + string_sizes (c ∷ columns) (x ∷ values) < 2 ^ 32
    pub there : is_null x ≡ false

  abbrev whole : Bytes
  whole = laid L (c ∷ columns) (x ∷ values) f v t m

  type_of_value : First → get_type_id x ≡ c.column_type
  type_of_value g = of_match x g.this g.there
    where
      of_match : (y : Value) → Matches c y → is_null y ≡ false → get_type_id y ≡ c.column_type
      of_match y null h = absurd (cc h)
      of_match y (typed fits type there) h = type

  of_value-Fits : First → Fits x
  of_value-Fits g = of_match x g.this
    where
      of_match : (y : Value) → Matches c y → Fits y
      of_match y null = tt
      of_match y (typed fits type there) = fits

  pub first_string : First → is_varchar c ≡ true → read_varchar whole v ≡ x
  unfolding laid read_varchar
  first_string g text =
      let n = length (string_of x) in
      let k = one_string c columns text in
      let fixed = g.areas.fixed in
      let offsets = g.areas.offsets in
      let sum = string_sizes_text text in
      let apart : v + 4 ≤ t = omega (arith, k.offsets) in
      let a : Areas columns f (v + 4) (t + (4 + n)) = record {
        fixed = omega (arith, k.fixed);
        offsets = omega (arith, k.offsets);
      } in
      rw text (
        read_varchar-kept L m v t (string_of x) apart
          (laid L columns values f (v + 4) (t + (4 + n)) (write_varchar L m v t (string_of x)))
          (omega (arith, sum, g.small))
          (λ p o.
            laid-byte L columns values f (v + 4) (t + (4 + n)) (write_varchar L m v t (string_of x))
              p g.rest a (ground (arith, o, k.fixed, k.offsets)))
        ∙ varchar-string_of x (ap varchar_type (type_of_value g) ∙ text))
    where
      string_sizes_text :
          is_varchar c ≡ true
          → string_sizes (c ∷ columns) (x ∷ values)
            ≡ 4 + length (string_of x) + string_sizes columns values
      string_sizes_text h = rw h refl

  pub first_cell : First → is_varchar c ≡ false → deserialize_value whole f c.column_type ≡ x
  unfolding laid
  first_cell g plain =
      let k = one_cell c columns plain in
      let fixed = g.areas.fixed in
      let offsets = g.areas.offsets in
      let w = write_bytes m f (cell_of c x) in
      let type = type_of_value g in
      let a : Areas columns (f + type_id_size c.column_type) v t = record {
        fixed = omega (arith, k.fixed);
        offsets = omega (arith, k.offsets);
      } in
      let same : cell_of c x ≡ value_bytes x = rw (g.there) refl in
      rw plain (
        deserialize_value_cong (laid L columns values (f + type_id_size c.column_type) v t w) w f
          c.column_type
          (λ p from to.
            laid-byte L columns values (f + type_id_size c.column_type) v t w p g.rest a (inl to))
        ∙ deserialize_value-deserialize_from w f c.column_type plain
        ∙ ap (λ b. (deserialize_from (write_bytes m f b) f c.column_type).0) same
        ∙ ap (λ y. (deserialize_from (write_bytes m f (value_bytes x)) f y).0) (sym type)
        ∙ ap (λ r. r.0) (deserialize_from-value_bytes x m f (of_value-Fits g)))

  pub first_read : First → read_cell whole c f v ≡ x
  first_read g = elim (Bool-cases (is_varchar c)) [
    | inl text ↦ rw text (first_string g text)
    | inr plain ↦ rw plain (first_cell g plain)
  ]

  pub laid_text :
      is_varchar c ≡ true
      → whole
        ≡ laid L columns values f
            (v + 4)
            (t + (4 + length (string_of x)))
            (write_varchar L m v t (string_of x))
  unfolding laid
  laid_text h = rw h refl

  pub laid_plain :
      is_varchar c ≡ false
      → whole
        ≡ laid L columns values (f + type_id_size c.column_type) v t (write_bytes m f (cell_of c x))
  unfolding laid
  laid_plain h = rw h refl
