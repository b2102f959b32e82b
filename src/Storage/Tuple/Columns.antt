-- ===== src/Storage/Tuple/Columns.antt =====
-- Where the columns of a row lie: the loops of goods_db/src/storage/table/tuple.cpp.
use goods_db.Prelude.{
  ℕ, ◌+◌, ◌≡◌, refl, true, false, List, [], ◌∷◌, some, arith, if◌then◌else◌, inl, inr, Bool-cases,
  length, replicate, length-replicate, ap, ◌∙◌,
}
use goods_db.Prelude.Bytes.{Bytes, write_bytes}
use goods_db.Types.Schema.{Column, Schema, type_id_size}
use goods_db.Types.Value.{
  Value, invalid, boolean, tinyint, smallint, integer, bigint, decimal, timestamp, varchar,
  get_type_id, get_serialized_size, value_bytes,
}
use goods_db.Types.Value.Stored.{Fits, length-value_bytes}
use goods_db.Storage.Tuple.{
  Texts, varchar_type, is_varchar, is_null, get_as_varchar, varchar_offsets, fixed_bytes,
  write_varchar, write_columns,
}

-- A value of the type of its column, or NULL in a column of any type of the enumeration.
pub data Matches : Column → Value → Type 0 where
  null : {c : Column} → Matches c invalid
  typed :
      {c : Column} {v : Value}
      → Fits v
      → get_type_id v ≡ c.column_type
      → is_null v ≡ false
      → Matches c v

abbrev pub AllMatch : Schema → List Value → Type 0
AllMatch [] [] = Unit {0}
AllMatch [] (v ∷ values) = ⊥
AllMatch (c ∷ columns) [] = ⊥
AllMatch (c ∷ columns) (v ∷ values) = Matches c v × AllMatch columns values

-- The string of a VARCHAR column, and the bytes of any other.
abbrev pub string_of : Value → List ℕ
string_of (varchar s) = s
string_of v = []

abbrev pub cell_of : Column → Value → List ℕ
cell_of c v = if is_null v then replicate (type_id_size c.column_type) 0 else value_bytes v

-- `write_columns` without errors, with the strings from `t` on.
unfoldable pub laid : Texts → Schema → List Value → ℕ → ℕ → ℕ → Bytes → Bytes
laid L [] values f v t m = m
laid L (c ∷ columns) [] f v t m = m
laid L (c ∷ columns) (x ∷ values) f v t m =
    laid L columns values (if is_varchar c then f else f + type_id_size c.column_type)
      (if is_varchar c then v + 4 else v)
      (if is_varchar c then t + (4 + length (string_of x)) else t)
      (if is_varchar c then write_varchar L m v t (string_of x) else write_bytes m f (cell_of c x))

abbrev pub string_sizes : Schema → List Value → ℕ
string_sizes [] values = 0
string_sizes (c ∷ columns) [] = 0
string_sizes (c ∷ columns) (x ∷ values) =
    (if is_varchar c then 4 + length (string_of x) else 0) + string_sizes columns values

get_serialized_size-type :
    (v : Value)
    → varchar_type (get_type_id v) ≡ false
    → get_serialized_size v ≡ type_id_size (get_type_id v)
unfolding get_serialized_size type_id_size get_type_id
get_serialized_size-type invalid h = refl
get_serialized_size-type (boolean b) h = refl
get_serialized_size-type (tinyint n) h = refl
get_serialized_size-type (smallint n) h = refl
get_serialized_size-type (integer n) h = refl
get_serialized_size-type (bigint n) h = refl
get_serialized_size-type (decimal n) h = refl
get_serialized_size-type (timestamp n) h = refl
get_serialized_size-type (varchar s) h = absurd (cc h)

pub length-cell_of :
    (c : Column) (v : Value)
    → Matches c v
    → is_varchar c ≡ false
    → length (cell_of c v) ≡ type_id_size c.column_type
length-cell_of c v null h = length-replicate {A = ℕ} (type_id_size c.column_type) 0
length-cell_of c v (typed fits type there) h = rw there (
    length-value_bytes v fits
    ∙ get_serialized_size-type v (ap varchar_type type ∙ h)
    ∙ ap type_id_size type)

fixed_bytes-cell_of :
    (L : Texts) (c : Column) (v : Value) → Matches c v → fixed_bytes L c v ≡ some (cell_of c v)
unfolding fixed_bytes
fixed_bytes-cell_of L c v null = refl
fixed_bytes-cell_of L c v (typed fits type there) = ground arith

text_string :
    (v : Value) → varchar_type (get_type_id v) ≡ true → get_as_varchar v ≡ some (string_of v)
unfolding get_as_varchar get_type_id
text_string invalid h = absurd (cc h)
text_string (boolean b) h = absurd (cc h)
text_string (tinyint n) h = absurd (cc h)
text_string (smallint n) h = absurd (cc h)
text_string (integer n) h = absurd (cc h)
text_string (bigint n) h = absurd (cc h)
text_string (decimal n) h = absurd (cc h)
text_string (timestamp n) h = absurd (cc h)
text_string (varchar s) h = refl

get_as_varchar-string_of :
    (c : Column) (v : Value)
    → Matches c v
    → is_varchar c ≡ true
    → get_as_varchar v ≡ some (string_of v)
unfolding get_as_varchar
get_as_varchar-string_of c v null h = refl
get_as_varchar-string_of c v (typed fits type there) h = text_string v (ap varchar_type type ∙ h)

-- One round of the loops.
module _ (L : Texts) (c : Column) (columns : Schema) (x : Value) (values : List Value) where
  offsets_fixed :
      (t : ℕ)
      → is_varchar c ≡ false
      → varchar_offsets (c ∷ columns) (x ∷ values) t ≡ varchar_offsets columns values t
  unfolding varchar_offsets
  offsets_fixed t h = rw (h, varchar_offsets) refl

  offsets_varchar :
      (t : ℕ) (offsets : List ℕ) (total : ℕ)
      → is_varchar c ≡ true
      → get_as_varchar x ≡ some (string_of x)
      → varchar_offsets columns values (t + (4 + length (string_of x))) ≡ some (offsets, total)
      → varchar_offsets (c ∷ columns) (x ∷ values) t ≡ some (t ∷ offsets, total)
  unfolding varchar_offsets
  offsets_varchar t offsets total h s r = rw (h, varchar_offsets) (rw (s, r) refl)

  write_fixed :
      (offsets : List ℕ) (f v : ℕ) (m : Bytes) (b : List ℕ)
      → is_varchar c ≡ false
      → fixed_bytes L c x ≡ some b
      → write_columns L (c ∷ columns) (x ∷ values) offsets f v m
        ≡ write_columns L columns values offsets
            (f + type_id_size c.column_type)
            v
            (write_bytes m f b)
  unfolding write_columns
  write_fixed [] f v m b h e = rw (h, write_columns) (rw e refl)
  write_fixed (o ∷ offsets) f v m b h e = rw (h, write_columns) (rw e refl)

  write_string :
      (o : ℕ) (offsets : List ℕ) (f v : ℕ) (m : Bytes) (s : List ℕ)
      → is_varchar c ≡ true
      → get_as_varchar x ≡ some s
      → write_columns L (c ∷ columns) (x ∷ values) (o ∷ offsets) f v m
        ≡ write_columns L columns values offsets f (v + 4) (write_varchar L m v o s)
  unfolding write_columns
  write_string o offsets f v m s h e = rw (h, write_columns) (rw e refl)

-- The loops end without an error on values that match their columns, and write what `laid` says.
pub record Written (L : Texts) (columns : Schema) (values : List Value) (f v t : ℕ) (m : Bytes)
    : Type 0 where
  pub offsets : List ℕ
  pub computed : varchar_offsets columns values t ≡ some (offsets, t + string_sizes columns values)
  pub written : write_columns L columns values offsets f v m ≡ some (laid L columns values f v t m)

pub write_columns-Written :
    (L : Texts) (columns : Schema) (values : List Value) (f v t : ℕ) (m : Bytes)
    → AllMatch columns values
    → Written L columns values f v t m
unfolding laid
write_columns-Written L [] [] f v t m h =
    unfold varchar_offsets write_columns in
    record {
      offsets = [];
      computed = ap (λ k. some ([], k)) (let e : t ≡ t + 0 = omega arith in e);
      written = refl;
    }
write_columns-Written L [] (x ∷ values) f v t m h = absurd h
write_columns-Written L (c ∷ columns) [] f v t m h = absurd h
write_columns-Written L (c ∷ columns) (x ∷ values) f v t m (this, rest) =
    elim (Bool-cases (is_varchar c)) [
      | inl text ↦
          let s = get_as_varchar-string_of c x this text in
          let w =
            write_columns-Written L columns values f (v + 4) (t + (4 + length (string_of x)))
              (write_varchar L m v t (string_of x)) rest in
          let e : t + (4 + length (string_of x)) + string_sizes columns values
              ≡ t + (4 + length (string_of x) + string_sizes columns values) =
            omega arith in
          record {
            offsets = t ∷ w.offsets;
            computed =
                offsets_varchar L c columns x values t w.offsets _ text s w.computed
                ∙ rw text (ap (λ k. some (t ∷ w.offsets, k)) e);
            written =
                write_string L c columns x values t w.offsets f v m (string_of x) text s
                ∙ rw text w.written;
          }
      | inr fixed ↦
          let b = fixed_bytes-cell_of L c x this in
          let w =
            write_columns-Written L columns values (f + type_id_size c.column_type) v t
              (write_bytes m f (cell_of c x)) rest in
          record {
            offsets = w.offsets;
            computed =
                offsets_fixed L c columns x values t fixed
                ∙ rw fixed (
                    w.computed
                    ∙ ap (λ k. some (w.offsets, t + k))
                        (let e : string_sizes columns values ≡ 0 + string_sizes columns values =
                            omega arith in
                          e));
            written =
                write_fixed L c columns x values w.offsets f v m (cell_of c x) fixed b
                ∙ rw fixed w.written;
          }
    ]
