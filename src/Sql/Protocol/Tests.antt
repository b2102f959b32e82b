-- ===== src/Sql/Protocol/Tests.antt =====
-- Runs of the binary protocol.
use goods_db.Prelude.{ℕ, ◌≡◌, refl, false, List, [], ◌∷◌, ◌++◌, some, arith}
use goods_db.Types.Encoding.{to_bytes, from_bytes, split_at}
use goods_db.Sql.Protocol.{
  ProtocolBinary, Cell, null, integer, text, read_packet_length, packet_length, write_packet,
  write_lenenc, ok_payload, send_ok, error_payload, send_error, start_row, cell_bytes, store,
  end_row, store_cells, send_row,
}
use goods_db.Sql.Protocol.Wire.{read_number, read_lenenc_after, read_lenenc}
use goods_db.Sql.Protocol.Values.{read_tagged, read_cell, read_cells, read_cells-send_row}
use goods_db.Sql.Protocol.Packets.{read_packet, read_ok, read_ok-send_ok}

program : Unit {0}
unfolding to_bytes from_bytes split_at read_packet_length packet_length write_packet write_lenenc
    ok_payload send_ok error_payload send_error start_row cell_bytes store end_row store_cells
    send_row read_number read_lenenc_after read_lenenc read_tagged read_cell read_cells read_packet
    read_ok
program = tt

abbrev fresh : ProtocolBinary
fresh = record {
  fd = some 4;
  buffer = [];
  sequence_id = 0;
  num_columns = 0;
  column_count = 0;
  in_row = false;
  row_value_count = 0;
}

abbrev cells : List Cell
cells = integer 300 ∷ null ∷ text (112 ∷ 101 ∷ 110 ∷ []) ∷ []

send_row_bytes :
    (send_row fresh cells).buffer
    ≡ 1 ∷ 44 ∷ 1 ∷ 0 ∷ 0 ∷ 0 ∷ 0 ∷ 0 ∷ 0 ∷ 0 ∷ 3 ∷ 3 ∷ 0 ∷ 112 ∷ 101 ∷ 110 ∷ []
unfolding program
send_row_bytes = refl

read_cells-send_row_example :
    (bytes : List ℕ) × ((send_row fresh cells).buffer ≡ [] ++ bytes)
    × (read_cells 3 (bytes ++ 7 ∷ []) ≡ some (cells, 7 ∷ []))
    × ((send_row fresh cells).row_value_count ≡ 3)
read_cells-send_row_example =
    read_cells-send_row fresh cells (7 ∷ []) (omega arith, (tt, (omega arith, tt)))

read_ok-send_ok_example :
    (bytes payload : List ℕ) × ((send_ok fresh 70000 5 (100 ∷ [])).buffer ≡ [] ++ bytes)
    × (read_packet (bytes ++ 7 ∷ []) ≡ some (0, payload, 7 ∷ []))
    × (read_ok payload ≡ some (70000, 5, 100 ∷ []))
read_ok-send_ok_example =
    read_ok-send_ok fresh 70000 5 (100 ∷ []) (7 ∷ []) (omega arith) (omega arith) (omega arith)
