-- ===== src/Sql/Protocol/Values.antt =====
-- Rows of goods_db/src/sql/protocol/protocol_binary.cpp read back by the format of its header.
use goods_db.Prelude.{
  ℕ, zero, suc, ◌+◌, ◌%◌, ◌^◌, ◌<◌, ◌≡◌, refl, List, [], ◌∷◌, ◌++◌, Option, none, some, arith,
  length, ◌==◌, if◌then◌else◌, sym, ◌∙◌,
}
use mathlib.Core.List.{append-nil, append_assoc}
use goods_db.Types.Encoding.{to_bytes, split_at, ◌>>=◌, split_at-append, limit}
use goods_db.Sql.Protocol.{
  ProtocolBinary, Cell, null, integer, float, text, cell_bytes, store, store_cells, start_row,
  end_row, send_row,
}
use goods_db.Sql.Protocol.Wire.{read_number, read_number-to_bytes}

-- What follows the type tag.
unfoldable pub read_tagged : ℕ → List ℕ → Option (Cell × List ℕ)
read_tagged tag l =
    if tag == 0
    then some (null, l)
    else if tag == 1
    then read_number 8 l >>= (λ r. some (integer r.0, r.1))
    else if tag == 2
    then read_number 8 l >>= (λ r. some (float r.0, r.1))
    else if tag == 3
    then read_number 2 l >>= (λ n. split_at n.0 n.1 >>= (λ r. some (text r.0, r.1)))
    else none

unfoldable pub read_cell : List ℕ → Option (Cell × List ℕ)
read_cell [] = none
read_cell (tag ∷ l) = read_tagged tag l

unfoldable pub read_cells : ℕ → List ℕ → Option (List Cell × List ℕ)
read_cells zero l = some ([], l)
read_cells (suc n) l = read_cell l >>= λ c. read_cells n c.1 >>= λ r. some (c.0 ∷ r.0, r.1)

-- Numbers of 64 bits, and strings whose length has 16.
abbrev pub IsFit : Cell → Type 0
IsFit null = Unit {0}
IsFit (integer v) = v < limit 8
IsFit (float bits) = bits < limit 8
IsFit (text s) = length s < 65536

abbrev pub AreFit : List Cell → Type 0
AreFit [] = Unit {0}
AreFit (c ∷ cells) = IsFit c × AreFit cells

read_cell-cell_bytes :
    (c : Cell) (rest : List ℕ) → IsFit c → read_cell (cell_bytes c ++ rest) ≡ some (c, rest)
unfolding read_cell read_tagged cell_bytes
read_cell-cell_bytes null rest h = refl
read_cell-cell_bytes (integer v) rest h = rw (read_number-to_bytes 8 v rest h) refl
read_cell-cell_bytes (float bits) rest h = rw (read_number-to_bytes 8 bits rest h) refl
read_cell-cell_bytes (text s) rest h =
    let cut : length s % 65536 ≡ length s = omega (arith, h) in
    rw
      (
        cut,
        append_assoc (to_bytes 2 (length s)) s rest,
        read_number-to_bytes 2 (length s) (s ++ rest) (omega (arith, h)),
        split_at-append s rest,
      )
      refl

-- The bytes of some cells.
abbrev pub cells_bytes : List Cell → List ℕ
cells_bytes [] = []
cells_bytes (c ∷ cells) = cell_bytes c ++ cells_bytes cells

store_cells-buffer :
    (p : ProtocolBinary) (cells : List Cell)
    → (store_cells p cells).buffer ≡ p.buffer ++ cells_bytes cells
unfolding store_cells store
store_cells-buffer p [] = sym (append-nil p.buffer)
store_cells-buffer p (c ∷ cells) =
    store_cells-buffer (store p c) cells ∙ append_assoc p.buffer (cell_bytes c) (cells_bytes cells)

store_cells-count :
    (p : ProtocolBinary) (cells : List Cell)
    → p.row_value_count < 2 ^ 32
    → (store_cells p cells).row_value_count ≡ (p.row_value_count + length cells) % 2 ^ 32
unfolding store_cells store
store_cells-count p [] h = omega (arith, h)
store_cells-count p (c ∷ cells) h = store_cells-count (store p c) cells (omega arith) ∙ omega arith

read_cells-cells_bytes :
    (cells : List Cell) (rest : List ℕ)
    → AreFit cells
    → read_cells (length cells) (cells_bytes cells ++ rest) ≡ some (cells, rest)
unfolding read_cells
read_cells-cells_bytes [] rest h = refl
read_cells-cells_bytes (c ∷ cells) rest (fit, fits) =
    rw
      (
        append_assoc (cell_bytes c) (cells_bytes cells) rest,
        read_cell-cell_bytes c (cells_bytes cells ++ rest) fit,
        read_cells-cells_bytes cells rest fits,
      )
      refl

-- A row whose strings have a length of 16 bits is appended to the buffer, and reads back from
-- there, whatever follows it: the tags and the lengths tell where each value ends. The number of
-- values is counted modulo 2^32.
pub read_cells-send_row :
    (p : ProtocolBinary) (cells : List Cell) (rest : List ℕ)
    → AreFit cells
    → (bytes : List ℕ) × ((send_row p cells).buffer ≡ p.buffer ++ bytes)
      × (read_cells (length cells) (bytes ++ rest) ≡ some (cells, rest))
      × ((send_row p cells).row_value_count ≡ length cells % 2 ^ 32)
unfolding send_row start_row end_row
read_cells-send_row p cells rest h = (
  cells_bytes cells,
  store_cells-buffer (start_row p) cells,
  read_cells-cells_bytes cells rest h,
  store_cells-count (start_row p) cells (omega arith) ∙ omega arith,
)
