-- ===== src/Examples/Wire.antt =====
-- Examples for the codecs: byte buffers, BER, BCD and IPA frames.
use gsup_map_proxy.Base.{
  ◌+◌, ◌≡◌, refl, List, [], ◌∷◌, ◌++◌, length, ok, ◌>>=◌, map_ok, runtime_error, arith, replicate,
  length-replicate,
}
use gsup_map_proxy.Buffer.{Bytes}
use gsup_map_proxy.Buffer
use gsup_map_proxy.Buffer.Cursor
use gsup_map_proxy.Buffer.Cursor.{
  BufferReader, Moves, view, view_slice, unread, BufferReader-refines,
}
use gsup_map_proxy.Ber.{read_tlv, write_tlv, encode_int, decode_int}
use gsup_map_proxy.Ber.Tlv.{read_tlv-write_tlv}
use gsup_map_proxy.Ber.Integer.{decode_int-encode_int}
use gsup_map_proxy.Framing.{thrown}
use gsup_map_proxy.Framing.Delivery.{concat}
use gsup_map_proxy.Ipa.{IpaFrame, encode, next, feed, deliver}
use gsup_map_proxy.Ipa.Stream.{encode_all, deliver-encode_all, next-encode_wraps, next_zero_length}

-- A reader in the middle of four bytes.
abbrev reader : BufferReader
reader = record { bytes = 1 ∷ 2 ∷ 3 ∷ 4 ∷ []; pos = 1 }

BufferReader-refines_example :
    (unread (Cursor.of_bytes reader.bytes) ≡ reader.bytes)
    × (Cursor.is_empty reader ≡ Buffer.empty (unread reader))
    × (Cursor.remaining reader ≡ Buffer.remaining (unread reader))
    × (Cursor.position reader + length (unread reader) ≡ length reader.bytes)
    × (Cursor.peek reader ≡ Buffer.peek (unread reader))
    × (map_ok view (Cursor.read8 reader) ≡ Buffer.read8 (unread reader))
    × (map_ok view (Cursor.read_be16 reader) ≡ Buffer.read_be16 (unread reader))
    × (map_ok view (Cursor.read_be32 reader) ≡ Buffer.read_be32 (unread reader))
    × (map_ok view (Cursor.read_bytes reader 2) ≡ Buffer.read_bytes 2 (unread reader))
    × (map_ok view_slice (Cursor.slice reader 2) ≡ Buffer.slice 2 (unread reader))
    × Moves reader 1 (Cursor.read8 reader)
    × Moves reader 2 (Cursor.read_be16 reader)
    × Moves reader 4 (Cursor.read_be32 reader)
    × Moves reader 2 (Cursor.read_bytes reader 2)
    × Moves reader 2 (Cursor.slice reader 2)
BufferReader-refines_example = BufferReader-refines reader 2 (omega arith)

read_tlv-write_tlv_example :
    (write_tlv [] 0x04 (7 ∷ 8 ∷ []) >>= λ w. read_tlv (w ++ 9 ∷ [])) ≡ ok (0x04, 7 ∷ 8 ∷ [], 9 ∷ [])
read_tlv-write_tlv_example = read_tlv-write_tlv 0x04 (7 ∷ 8 ∷ []) (9 ∷ []) (omega arith)

-- The `int64_t` value -129.
decode_int-encode_int_example :
    decode_int (encode_int 18446744073709551487) ≡ ok 18446744073709551487
decode_int-encode_int_example = decode_int-encode_int 18446744073709551487 (omega arith)

abbrev gsup_frame : IpaFrame
gsup_frame = record { stream_id = 0xee; payload = 8 ∷ 9 ∷ [] }

-- A frame, and the first two bytes of another.
abbrev received : Bytes
received = 0 ∷ 3 ∷ 0xee ∷ 8 ∷ 9 ∷ 0 ∷ 2 ∷ []

-- The bytes of two frames, cut inside each of them.
abbrev pieces : List Bytes
pieces = (0 ∷ []) ∷ (3 ∷ 0xee ∷ 8 ∷ 9 ∷ 0 ∷ 3 ∷ []) ∷ (0xee ∷ 8 ∷ 9 ∷ []) ∷ []

pieces_of_frames : encode_all (gsup_frame ∷ gsup_frame ∷ []) ≡ ok (concat pieces)
unfolding encode_all encode concat
pieces_of_frames = refl

deliver-encode_all_example :
    deliver pieces ≡ record { frames = gsup_frame ∷ gsup_frame ∷ []; raised = ok tt; left = [] }
deliver-encode_all_example =
    deliver-encode_all (gsup_frame ∷ gsup_frame ∷ []) pieces (omega arith) pieces_of_frames

next_zero_length_example :
    (next (0 ∷ 0 ∷ 0xee ∷ 5 ∷ []) ≡ (thrown runtime_error, 0 ∷ 0 ∷ 0xee ∷ 5 ∷ []))
    × ((next (feed (next (0 ∷ 0 ∷ 0xee ∷ 5 ∷ [])).1 received)).0 ≡ thrown runtime_error)
next_zero_length_example = next_zero_length 0xee (5 ∷ []) received

abbrev full_payload : Bytes
full_payload = replicate 65535 0

next-encode_wraps_example :
    (encode 0xee full_payload ≡ ok (0 ∷ 0 ∷ 0xee ∷ full_payload))
    × (map_ok (λ w. next (w ++ 0 ∷ 3 ∷ [])) (encode 0xee full_payload)
        ≡ ok (thrown runtime_error, 0 ∷ 0 ∷ 0xee ∷ full_payload ++ 0 ∷ 3 ∷ []))
next-encode_wraps_example =
    next-encode_wraps 0xee full_payload (0 ∷ 3 ∷ []) (length-replicate 65535 0)
