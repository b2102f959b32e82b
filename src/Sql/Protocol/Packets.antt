-- ===== src/Sql/Protocol/Packets.antt =====
-- The responses of goods_db/src/sql/protocol/protocol_binary.cpp as packets.
use goods_db.Prelude.{
  ℕ, ◌+◌, ◌%◌, ◌^◌, ◌<◌, ◌≤◌, ◌≡◌, refl, List, [], ◌∷◌, ◌++◌, Option, none, some, arith, length,
  ◌==◌, if◌then◌else◌,
}
use mathlib.Core.List.{append_assoc}
use goods_db.Prelude.Lists.{length-append}
use goods_db.Types.Encoding.{to_bytes, split_at, ◌>>=◌, split_at-append, length-to_bytes, limit}
use goods_db.Sql.Protocol.{
  ProtocolBinary, packet_length, write_packet, write_lenenc, ok_payload, send_ok,
}
use goods_db.Sql.Protocol.Wire.{
  read_number, read_number-to_bytes, read_number-one, read_lenenc, read_lenenc-write_lenenc,
}

-- A packet: the length in three bytes, the sequence id, and so many bytes.
unfoldable pub read_packet : List ℕ → Option (ℕ × List ℕ × List ℕ)
read_packet l =
    read_number 3 l
    >>= (λ n. read_number 1 n.1 >>= (λ q. split_at n.0 q.1 >>= (λ r. some (q.0, r.0, r.1))))

-- The packet that `WritePacket` adds.
abbrev pub packet : ℕ → List ℕ → List ℕ
packet q payload = (packet_length (length payload) ++ q ∷ []) ++ payload

read_packet-packet :
    (q : ℕ) (payload rest : List ℕ)
    → length payload < limit 3
    → read_packet (packet q payload ++ rest) ≡ some (q, payload, rest)
unfolding read_packet packet_length
read_packet-packet q payload rest h =
    let n = length payload in
    let cut : n % 2 ^ 32 ≡ n = omega (arith, h) in
    rw
      (
        cut,
        append_assoc (to_bytes 3 n ++ q ∷ []) payload rest,
        append_assoc (to_bytes 3 n) (q ∷ []) (payload ++ rest),
        read_number-to_bytes 3 n (q ∷ payload ++ rest) h,
        read_number-one q (payload ++ rest),
        split_at-append payload rest,
      )
      refl

-- The payload of an answer: the marker, two numbers, the status and the warnings, and a text.
unfoldable pub read_ok : List ℕ → Option (ℕ × ℕ × List ℕ)
read_ok l = read_number 1 l >>= (λ m.
    if m.0 == 0
    then read_lenenc m.1
      >>= (λ a. read_lenenc a.1 >>= (λ b. split_at 4 b.1 >>= (λ r. some (a.0, b.0, r.1))))
    else none)

read_ok-ok_payload :
    (a b : ℕ) (info : List ℕ)
    → a < limit 8
    → b < limit 8
    → read_ok (ok_payload a b info) ≡ some (a, b, info)
unfolding read_ok ok_payload
read_ok-ok_payload a b info ha hb =
    let tail = 0 ∷ 0 ∷ 0 ∷ 0 ∷ info in
    rw
      (
        read_number-one 0 (write_lenenc a ++ (write_lenenc b ++ tail)),
        read_lenenc-write_lenenc a (write_lenenc b ++ tail) ha,
        read_lenenc-write_lenenc b tail hb,
        split_at-append (0 ∷ 0 ∷ 0 ∷ 0 ∷ []) info,
      )
      refl

write_lenenc-short : (v : ℕ) → length (write_lenenc v) ≤ 9
unfolding write_lenenc
write_lenenc-short v = ground (arith, length-to_bytes 2 v, length-to_bytes 8 v)

ok_payload-short : (a b : ℕ) (info : List ℕ) → length (ok_payload a b info) ≤ 23 + length info
unfolding ok_payload
ok_payload-short a b info =
    let tail = 0 ∷ 0 ∷ 0 ∷ 0 ∷ info in
    omega (
      arith,
      length-append (write_lenenc a) (write_lenenc b ++ tail),
      length-append (write_lenenc b) tail,
      write_lenenc-short a,
      write_lenenc-short b,
    )

-- SendOk of numbers of 64 bits and a text that leaves room in a packet appends one packet to the
-- buffer, which reads back: its sequence id is 0, and its payload gives the number of rows, the
-- last id and the text.
pub read_ok-send_ok :
    (p : ProtocolBinary) (a b : ℕ) (info rest : List ℕ)
    → a < limit 8
    → b < limit 8
    → 23 + length info < limit 3
    → (bytes payload : List ℕ) × ((send_ok p a b info).buffer ≡ p.buffer ++ bytes)
      × (read_packet (bytes ++ rest) ≡ some (0, payload, rest))
      × (read_ok payload ≡ some (a, b, info))
unfolding send_ok write_packet
read_ok-send_ok p a b info rest ha hb room =
    let payload = ok_payload a b info in
    let short = ok_payload-short a b info in
    (
      packet 0 payload,
      payload,
      append_assoc p.buffer (packet_length (length payload) ++ 0 ∷ []) payload,
      read_packet-packet 0 payload rest (omega (arith, short, room)),
      read_ok-ok_payload a b info ha hb,
    )
