-- ===== src/Sql/Protocol.antt =====
-- goods_db/src/sql/protocol/protocol_binary.cpp and protocol.cpp: rows and responses as bytes. A double is its
-- 64 bits.
use goods_db.Prelude.{
  ℕ, zero, suc, ◌+◌, ◌-◌, ◌*◌, ◌%◌, ◌^◌, Bool, true, false, List, [], ◌∷◌, ◌++◌, Option, none, some,
  ltb, ◌||◌, if◌then◌else◌, length, replicate,
}
use goods_db.Prelude.Lists.{get_or, take}
use goods_db.Types.Encoding.{to_bytes}
pub mod Wire
pub mod Values
pub mod Packets
pub mod Tests

-- `ReadPacketLength`
unfoldable pub read_packet_length : List ℕ → ℕ
read_packet_length header = get_or header 0 0 + 256 * get_or header 1 0 + 65536 * get_or header 2 0

-- `WritePacketLength`: the three bytes of a `uint32_t`.
unfoldable pub packet_length : ℕ → List ℕ
packet_length len = to_bytes 3 (len % 2 ^ 32)

-- `fd` is `none` for a negative descriptor.
pub record ProtocolBinary : Type 0 where
  pub fd : Option ℕ
  pub buffer : List ℕ
  pub sequence_id : ℕ
  pub num_columns : ℕ
  pub column_count : ℕ
  pub in_row : Bool
  pub row_value_count : ℕ

abbrev pub put : ProtocolBinary → List ℕ → ProtocolBinary
put p bytes = record p { buffer = p.buffer ++ bytes }

unfoldable pub write_string : ProtocolBinary → List ℕ → ProtocolBinary
write_string p s = put (put p (to_bytes 2 (length s % 65536))) s

-- `WriteLenEncoded` of a `uint64_t`.
unfoldable pub len_encoded : ℕ → List ℕ
len_encoded val =
    if ltb val 251
    then val ∷ []
    else if ltb val 65536
    then 0xfc ∷ to_bytes 2 val
    else if ltb val 16777216
    then 0xfd ∷ to_bytes 3 val
    else 0xfe ∷ to_bytes 8 val

unfoldable pub write_len_encoded : ProtocolBinary → ℕ → ProtocolBinary
write_len_encoded p val = put p (len_encoded val)

unfoldable pub write_packet : ProtocolBinary → List ℕ → ProtocolBinary
write_packet p payload =
    let p' = record p { sequence_id = (p.sequence_id + 1) % 256 } in
    put (put p' (packet_length (length payload) ++ p.sequence_id ∷ [])) payload

unfoldable pub set_write_fd : ProtocolBinary → Option ℕ → ProtocolBinary
set_write_fd p fd = record p { fd = fd; sequence_id = 0 }

unfoldable pub start_result_metadata : ProtocolBinary → ℕ → ProtocolBinary
start_result_metadata p n =
    put (record p { num_columns = n; column_count = 0; buffer = []; sequence_id = 0 })
      (to_bytes 4 n)

unfoldable pub send_column_definition : ProtocolBinary → List ℕ → List ℕ → ProtocolBinary
send_column_definition p name type_name =
    let p' = write_string (write_string p name) type_name in
    record p' { column_count = (p'.column_count + 1) % 2 ^ 32 }

unfoldable pub start_row : ProtocolBinary → ProtocolBinary
start_row p = record p { in_row = true; row_value_count = 0 }

-- The calls `StoreNull`, `StoreInteger`, `StoreFloat` and `StoreString`, with their arguments.
pub data Cell : Type 0 where
  null : Cell
  integer : ℕ → Cell
  float : ℕ → Cell
  text : List ℕ → Cell

-- A string's length is cut to 16 bits, the string is not.
unfoldable pub cell_bytes : Cell → List ℕ
cell_bytes null = 0 ∷ []
cell_bytes (integer v) = 1 ∷ to_bytes 8 v
cell_bytes (float bits) = 2 ∷ to_bytes 8 bits
cell_bytes (text s) = 3 ∷ to_bytes 2 (length s % 65536) ++ s

unfoldable pub store : ProtocolBinary → Cell → ProtocolBinary
store p c = record (put p (cell_bytes c)) { row_value_count = (p.row_value_count + 1) % 2 ^ 32 }

unfoldable pub end_row : ProtocolBinary → ProtocolBinary
end_row p = record p { in_row = false }

unfoldable pub store_cells : ProtocolBinary → List Cell → ProtocolBinary
store_cells p [] = p
store_cells p (c ∷ cells) = store_cells (store p c) cells

-- A row, as `Protocol` is meant to be called.
unfoldable pub send_row : ProtocolBinary → List Cell → ProtocolBinary
send_row p cells = end_row (store_cells (start_row p) cells)

-- `write_lenenc` of `SendOk`, which has no form of three bytes.
unfoldable pub write_lenenc : ℕ → List ℕ
write_lenenc val =
    if ltb val 251
    then val ∷ []
    else if ltb val 65536
    then 0xfc ∷ to_bytes 2 val
    else 0xfe ∷ to_bytes 8 val

unfoldable pub ok_payload : ℕ → ℕ → List ℕ → List ℕ
ok_payload affected_rows last_insert_id info =
    0 ∷ write_lenenc affected_rows ++ (write_lenenc last_insert_id ++ 0 ∷ 0 ∷ 0 ∷ 0 ∷ info)

unfoldable pub send_ok : ProtocolBinary → ℕ → ℕ → List ℕ → ProtocolBinary
send_ok p affected_rows last_insert_id info =
    write_packet (record p { sequence_id = 0 }) (ok_payload affected_rows last_insert_id info)

-- The payload of `SendError`: the marker, `#` and the state, filled with spaces to nine bytes.
unfoldable pub error_payload : List ℕ → List ℕ → List ℕ
error_payload sql_state message =
    let start = 0xff ∷ 35 ∷ take 5 sql_state in start ++ replicate (9 - length start) 32 ++ message

-- `WriteUint16` goes to the buffer, in front of the packet.
unfoldable pub send_error : ProtocolBinary → ℕ → List ℕ → List ℕ → ProtocolBinary
send_error p error_code sql_state message =
    write_packet (put (record p { sequence_id = 0 }) (to_bytes 2 error_code))
      (error_payload sql_state message)

unfoldable pub send_eof : ProtocolBinary → ProtocolBinary
send_eof p = write_packet (record p { sequence_id = 0 }) (0xfe ∷ [])

-- What `write` is given, if it is called; its result is not looked at.
unfoldable pub flush : ProtocolBinary → ProtocolBinary × Option (ℕ × List ℕ)
flush p = elim p.fd [
  | none ↦ (p, none)
  | some fd ↦ elim p.buffer [
    | [] ↦ (p, none)
    | b ∷ rest ↦ (record p { buffer = [] }, some (fd, p.buffer))
  ]
]
