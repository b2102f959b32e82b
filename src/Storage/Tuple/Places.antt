-- ===== src/Storage/Tuple/Places.antt =====
-- Where the columns of a row of goods_db/src/storage/table/tuple.cpp lie, as `GetValue` finds them.
use goods_db.Prelude.{
  ℕ, zero, suc, ◌+◌, ◌*◌, ◌^◌, ◌<◌, ◌≡◌, refl, true, false, List, [], ◌∷◌, arith, if◌then◌else◌,
  inl, inr, Bool-cases, length, get_or, ap, ◌∙◌,
}
use goods_db.Prelude.Bytes.{Bytes, write_bytes}
use goods_db.Types.Schema.{Schema, type_id_size}
use goods_db.Types.Value.{
  Value, invalid, boolean, tinyint, smallint, integer, bigint, decimal, timestamp, varchar,
}
use goods_db.Storage.Tuple.{
  Texts, is_varchar, is_null, write_varchar, size_before, varchars_upto, no_column,
}
use goods_db.Storage.Tuple.Columns.{AllMatch, string_of, cell_of, laid, string_sizes}
use goods_db.Storage.Tuple.Areas.{Areas, one_string, one_cell, read_cell, varchar-size}
use goods_db.Storage.Tuple.Layout.{First, first_read, laid_text, laid_plain}

-- The VARCHAR columns before column `i`.
pub vars_before : Schema → ℕ → ℕ
vars_before [] i = 0
vars_before (c ∷ columns) zero = 0
vars_before (c ∷ columns) (suc i) = (if is_varchar c then 1 else 0) + vars_before columns i

pub varchars_upto-vars_before :
    (columns : Schema) (i : ℕ)
    → i < length columns
    → is_varchar (get_or columns i no_column) ≡ true
    → varchars_upto columns i ≡ vars_before columns i + 1
unfolding varchars_upto vars_before
varchars_upto-vars_before [] i low h = absurd (omega (arith, low))
varchars_upto-vars_before (c ∷ columns) zero low h = rw h (omega arith)
varchars_upto-vars_before (c ∷ columns) (suc i) low h =
    omega (arith, varchars_upto-vars_before columns i (omega arith) h)

-- Each column reads back from its place.
pub laid-read_cell :
    (L : Texts) (columns : Schema) (values : List Value) (i f v t : ℕ) (m : Bytes)
    → AllMatch columns values
    → i < length columns
    → Areas columns f v t
    → t + string_sizes columns values < 2 ^ 32
    → is_null (get_or values i invalid) ≡ false
    → read_cell
        (laid L columns values f v t m)
        (get_or columns i no_column)
        (f + size_before columns i)
        (v + vars_before columns i * 4)
      ≡ get_or values i invalid
unfolding size_before vars_before
laid-read_cell L [] values i f v t m h low a small there = absurd (omega (arith, low))
laid-read_cell L (c ∷ columns) [] i f v t m h low a small there = absurd h
laid-read_cell L (c ∷ columns) (x ∷ values) zero f v t m (this, rest) low a small there =
    let g : First L c columns x values f v t m = record {
      this = this;
      rest = rest;
      areas = a;
      small = small;
      there = there;
    } in
    ap (read_cell (laid L (c ∷ columns) (x ∷ values) f v t m) c (f + 0))
      (let e : v + 0 * 4 ≡ v = omega arith in e)
    ∙ ap (λ k. read_cell (laid L (c ∷ columns) (x ∷ values) f v t m) c k v)
        (let e : f + 0 ≡ f = omega arith in e)
    ∙ first_read L c columns x values f v t m g
laid-read_cell L (c ∷ columns) (x ∷ values) (suc i) f v t m (this, rest) low a small there =
    let fixed = a.fixed in
    let offsets = a.offsets in
    let cell = get_or columns i no_column in
    elim (Bool-cases (is_varchar c)) [
      | inl text ↦
          let k = one_string c columns text in
          let n = length (string_of x) in
          let w =
            laid L columns values f (v + 4) (t + (4 + n)) (write_varchar L m v t (string_of x)) in
          let e : f + (type_id_size c.column_type + size_before columns i)
              ≡ f + size_before columns i =
            omega (arith, varchar-size c.column_type text) in
          let e' : v + (1 + vars_before columns i) * 4 ≡ v + 4 + vars_before columns i * 4 =
            omega arith in
          let size : t + (4 + n) + string_sizes columns values < 2 ^ 32 = sizes text in
          rw (laid_text L c columns x values f v t m text, text)
            (ap (read_cell w cell (f + (type_id_size c.column_type + size_before columns i))) e'
              ∙ ap (λ p. read_cell w cell p (v + 4 + vars_before columns i * 4)) e
              ∙ laid-read_cell L columns values i f (v + 4) (t + (4 + n))
                  (write_varchar L m v t (string_of x)) rest (omega arith)
                  (record { fixed = omega (arith, k.fixed); offsets = omega (arith, k.offsets) })
                  size there)
      | inr plain ↦
          let k = one_cell c columns plain in
          let w =
            laid L columns values (f + type_id_size c.column_type) v t
              (write_bytes m f (cell_of c x)) in
          let e : f + (type_id_size c.column_type + size_before columns i)
              ≡ f + type_id_size c.column_type + size_before columns i =
            omega arith in
          let e' : v + (0 + vars_before columns i) * 4 ≡ v + vars_before columns i * 4 =
            omega arith in
          rw (laid_plain L c columns x values f v t m plain, plain)
            (ap (read_cell w cell (f + (type_id_size c.column_type + size_before columns i))) e'
              ∙ ap (λ p. read_cell w cell p (v + vars_before columns i * 4)) e
              ∙ laid-read_cell L columns values i (f + type_id_size c.column_type) v t
                  (write_bytes m f (cell_of c x)) rest (omega arith)
                  (record { fixed = omega (arith, k.fixed); offsets = omega (arith, k.offsets) })
                  (omega (arith, small)) there)
    ]
  where
    sizes :
        is_varchar c ≡ true → t + (4 + length (string_of x)) + string_sizes columns values < 2 ^ 32
    sizes h = let k = rw h at small in omega (arith, k)

pub null_value : (x : Value) → is_null x ≡ true → invalid ≡ x
null_value invalid h = refl
null_value (boolean b) h = absurd (cc h)
null_value (tinyint n) h = absurd (cc h)
null_value (smallint n) h = absurd (cc h)
null_value (integer n) h = absurd (cc h)
null_value (bigint n) h = absurd (cc h)
null_value (decimal n) h = absurd (cc h)
null_value (timestamp n) h = absurd (cc h)
null_value (varchar s) h = absurd (cc h)

pub length-AllMatch :
    (columns : Schema) (values : List Value)
    → AllMatch columns values
    → length values ≡ length columns
length-AllMatch [] [] h = refl
length-AllMatch [] (x ∷ values) h = absurd h
length-AllMatch (c ∷ columns) [] h = absurd h
length-AllMatch (c ∷ columns) (x ∷ values) h = ap suc (length-AllMatch columns values h.1)
