-- ===== src/Types/Schema/RoundTrip.antt =====
-- Reading back what `Serialize` of goods_db/src/type/schema.cpp wrote.
use goods_db.Prelude.{
  ℕ, ◌%◌, ◌^◌, ◌<◌, ◌≡◌, refl, Bool, true, false, not, List, [], ◌∷◌, ◌++◌, some, arith, ◌==◌,
  length, ap, ◌∙◌,
}
use mathlib.Core.List.{append_assoc}
use goods_db.Types.Encoding.{
  to_bytes, from_bytes, split_at-append, from_bytes-to_bytes2, from_bytes-to_bytes4,
  split_at-to_bytes, split_at-one, from_bytes-one,
}
use goods_db.Types.Schema.{
  TypeId, invalid, boolean, tinyint, smallint, integer, bigint, decimal, timestamp, varchar, other,
  type_byte, type_of_byte, Column, Schema, flag, serialize_column, serialize_columns, serialize,
  read_primary_key, read_column, read_columns, deserialize,
}

abbrev pub is_known : TypeId → Bool
is_known invalid = true
is_known boolean = true
is_known tinyint = true
is_known smallint = true
is_known integer = true
is_known bigint = true
is_known decimal = true
is_known timestamp = true
is_known varchar = true
is_known (other b) = false

-- A column that fits its stored form: 2 bytes for the length of the name, 4 for the maximal length.
pub record Fits (c : Column) : Type 0 where
  pub name : length c.column_name < 65536
  pub kind : is_known c.column_type ≡ true
  pub max : c.max_length < 2 ^ 32

abbrev pub AllFit : Schema → Type 0
AllFit [] = Unit {0}
AllFit (c ∷ columns) = Fits c × AllFit columns

type_of_byte-type_byte : (t : TypeId) → is_known t ≡ true → type_of_byte (type_byte t) ≡ t
unfolding type_of_byte type_byte
type_of_byte-type_byte invalid h = refl
type_of_byte-type_byte boolean h = refl
type_of_byte-type_byte tinyint h = refl
type_of_byte-type_byte smallint h = refl
type_of_byte-type_byte integer h = refl
type_of_byte-type_byte bigint h = refl
type_of_byte-type_byte decimal h = refl
type_of_byte-type_byte timestamp h = refl
type_of_byte-type_byte varchar h = refl
type_of_byte-type_byte (other b) h = absurd (cc h)

flag_back : (b : Bool) → not (flag b == 0) ≡ b
flag_back true = refl
flag_back false = refl

-- The stored form before `is_primary_key` was added, in front of `rest`.
abbrev tail : Column → List ℕ → List ℕ
tail c rest = type_byte c.column_type ∷ (to_bytes 4 c.max_length ++ (flag c.is_nullable ∷ rest))

abbrev pub old_column : Column → List ℕ → List ℕ
old_column c rest = to_bytes 2 (length c.column_name % 65536) ++ (c.column_name ++ tail c rest)

serialize_column-append :
    (c : Column) (rest : List ℕ)
    → serialize_column c ++ rest ≡ old_column c (flag c.is_primary_key ∷ rest)
unfolding serialize_column to_bytes
serialize_column-append c rest =
    ap (λ (x : List ℕ). to_bytes 2 (length c.column_name % 65536) ++ x)
      (append_assoc c.column_name (tail c (flag c.is_primary_key ∷ [])) rest)

read_column-old_column :
    (c : Column) (rest : List ℕ)
    → Fits c
    → read_column (old_column c rest)
      ≡ some (record c { is_primary_key = (read_primary_key rest).0 }, (read_primary_key rest).1)
unfolding read_column
read_column-old_column c rest f =
    let len : from_bytes (to_bytes 2 (length c.column_name % 65536)) ≡ length c.column_name =
      from_bytes-to_bytes2 (length c.column_name % 65536) (omega arith) ∙ omega (arith, f.name) in
    let more = to_bytes 4 c.max_length ++ (flag c.is_nullable ∷ rest) in
    rw
      (
        split_at-to_bytes 2 (length c.column_name % 65536) (c.column_name ++ tail c rest),
        len,
        split_at-append c.column_name (tail c rest),
        split_at-one (type_byte c.column_type) more,
        split_at-to_bytes 4 c.max_length (flag c.is_nullable ∷ rest),
        split_at-one (flag c.is_nullable) rest,
        from_bytes-one (type_byte c.column_type),
        from_bytes-one (flag c.is_nullable),
        from_bytes-to_bytes4 c.max_length f.max,
        type_of_byte-type_byte c.column_type f.kind,
        flag_back c.is_nullable,
      )
      refl

-- Of a column that was stored without `is_primary_key`, `Deserialize` takes the first byte of what
-- follows for that flag, and goes on behind it, where the column fits its stored form.
pub read_column-old_format :
    (c : Column) (b : ℕ) (rest : List ℕ)
    → Fits c
    → read_column (old_column c (b ∷ rest))
      ≡ some (record c { is_primary_key = not (b == 0) }, rest)
unfolding read_primary_key
read_column-old_format c b rest f = read_column-old_column c (b ∷ rest) f

read_column-serialize_column :
    (c : Column) (rest : List ℕ)
    → Fits c
    → read_column (serialize_column c ++ rest) ≡ some (c, rest)
unfolding read_primary_key
read_column-serialize_column c rest f =
    ap read_column (serialize_column-append c rest)
    ∙ read_column-old_column c (flag c.is_primary_key ∷ rest) f
    ∙ rw (flag_back c.is_primary_key) refl

read_columns-serialize_columns :
    (columns : Schema) (rest : List ℕ)
    → AllFit columns
    → read_columns (length columns) (serialize_columns columns ++ rest) ≡ columns
unfolding read_columns serialize_columns
read_columns-serialize_columns [] rest f = refl
read_columns-serialize_columns (c ∷ columns) rest (f, fs) =
    rw
      (
        append_assoc (serialize_column c) (serialize_columns columns) rest,
        read_columns,
        read_column-serialize_column c (serialize_columns columns ++ rest) f,
      )
      (ap (◌∷◌ c) (read_columns-serialize_columns columns rest fs))

-- `Deserialize` gives back the schema that `Serialize` wrote, whatever bytes follow, where each column
-- has a type of the enumeration, a name shorter than 65536 bytes and a maximal length below 2^32, and
-- there are less than 2^32 columns.
pub deserialize-serialize :
    (columns : Schema) (rest : List ℕ)
    → AllFit columns
    → length columns < 2 ^ 32
    → deserialize (serialize columns ++ rest) ≡ columns
unfolding deserialize serialize
deserialize-serialize columns rest f small =
    let n : from_bytes (to_bytes 4 (length columns % 2 ^ 32)) ≡ length columns =
      from_bytes-to_bytes4 (length columns % 2 ^ 32) (omega arith) ∙ omega (arith, small) in
    rw
      (
        append_assoc (to_bytes 4 (length columns % 2 ^ 32)) (serialize_columns columns) rest,
        deserialize,
        split_at-to_bytes 4 (length columns % 2 ^ 32) (serialize_columns columns ++ rest),
        n,
      )
      (read_columns-serialize_columns columns rest f)
