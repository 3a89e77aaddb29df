-- ===== src/Sccp/Decode.antt =====
-- The decoder of transport/ScccpCodec.cpp.
use gsup_map_proxy.Base.{
  ℕ, ◌+◌, ◌*◌, ◌/◌, ◌%◌, Bool, not, [], ◌∷◌, length, take, drop, get_or, ltb, leb, ◌==◌,
  if◌then◌else◌, Error, Result, ok, err, stuck, runtime_error, ◌>>=◌, map_ok,
}
use gsup_map_proxy.Buffer.{Bytes, remaining, read8, read_bytes}
use gsup_map_proxy.Bcd.{Text, low_nibble, high_nibble}
use gsup_map_proxy.Sccp.{
  SccpAddress, SccpUdt, default_address, msg_udt, gti_no_gt, gti_tt_np_es_nai,
}

-- The last high nibble of an odd number of digits is a filler.
unfoldable pub unpack_bcd : Bytes → Bool → Text
unpack_bcd [] odd = []
unpack_bcd (b ∷ []) odd =
    if odd then (b'0' + low_nibble b) ∷ [] else (b'0' + low_nibble b) ∷ (b'0' + high_nibble b) ∷ []
unpack_bcd (b ∷ c ∷ bs) odd =
    (b'0' + low_nibble b) ∷ (b'0' + high_nibble b) ∷ unpack_bcd (c ∷ bs) odd

-- The bits of an address indicator and of a nature of address.
abbrev pub routes_by_ssn : ℕ → Bool
routes_by_ssn ai = not (ai / 128 % 2 == 0)

abbrev pub has_ssn : ℕ → Bool
has_ssn ai = not (ai / 8 % 2 == 0)

abbrev pub gti_of : ℕ → ℕ
gti_of ai = ai / 16 % 8 * 16

unfoldable pub read_ssn : SccpAddress → Bytes → Result (SccpAddress × Bytes)
read_ssn addr r =
    if addr.ssn_present
    then map_ok (λ (ssn, r). (record addr { ssn = ssn }, r)) (read8 r)
    else ok (addr, r)

unfoldable pub read_gt : SccpAddress → Bytes → Result SccpAddress
read_gt addr r = do
  (tt_read, r) ← read8 r
  (np_es, r) ← read8 r
  (nai_raw, r) ← read8 r
  (bcd, r) ← read_bytes (remaining r) r
  ok (record addr {
    tt = tt_read;
    np = np_es / 16 % 16 * 16;
    nai = nai_raw % 128;
    digits = unpack_bcd bcd (not (nai_raw / 128 % 2 == 0));
  })

unfoldable pub decode_address : Bytes → Result SccpAddress
decode_address r = do
  (ai, r) ← read8 r
  let gti = gti_of ai
  let addr = record default_address {
    route_by_gt = not (routes_by_ssn ai);
    ssn_present = has_ssn ai;
  }
  (addr, r) ← read_ssn addr r
  if gti == gti_no_gt
      then ok addr
      else if gti == gti_tt_np_es_nai
      then read_gt addr r
      else map_ok (λ p. addr) (read_bytes (remaining r) r)

-- What `decodeUdt` comes to: `undefined` is a read past the end of `raw`, on which C++ leaves the
-- behaviour open.
pub data Outcome (A : Type 0) : Type 0 where
  value : A → Outcome A
  raised : Error → Outcome A
  undefined : Outcome A

abbrev pub and_then : {A B : Type 0} → Outcome A → (A → Outcome B) → Outcome B
and_then (value a) next = next a
and_then (raised e) next = raised e
and_then undefined next = undefined

-- No loop of the address decoder runs on fuel, so that `stuck` does not occur.
abbrev pub of_result : {A : Type 0} → Result A → Outcome A
of_result (ok a) = value a
of_result (err e) = raised e
of_result stuck = undefined

-- The address whose length byte stands at `len_pos`.
unfoldable pub read_party : Bytes → ℕ → Outcome SccpAddress
read_party raw len_pos =
    let len = get_or raw len_pos 0 in
    if leb (length raw) len_pos
    then raised runtime_error
    else if ltb (length raw) (len_pos + 1 + len)
    then undefined
    else of_result (decode_address (take len (drop (len_pos + 1) raw)))

unfoldable pub read_pdu : Bytes → ℕ → Outcome Bytes
read_pdu raw len_pos =
    let len = get_or raw len_pos 0 in
    if leb (length raw) len_pos
    then raised runtime_error
    else if ltb (length raw) (len_pos + 1 + len)
    then raised runtime_error
    else value (take len (drop (len_pos + 1) raw))

-- The pointers stand at the offsets 2, 3 and 4, and count from themselves.
unfoldable pub decode_udt : Bytes → Outcome SccpUdt
decode_udt (msg_type ∷ proto_class ∷ ptr1 ∷ ptr2 ∷ ptr3 ∷ r) =
    let raw = msg_type ∷ proto_class ∷ ptr1 ∷ ptr2 ∷ ptr3 ∷ r in
    if not (msg_type == msg_udt)
    then raised runtime_error
    else and_then (read_party raw (2 + ptr1)) (λ called.
      and_then (read_party raw (3 + ptr2)) (λ calling. and_then (read_pdu raw (4 + ptr3)) (λ pdu.
        value (record {
          protocol_class = proto_class;
          called_party = called;
          calling_party = calling;
          pdu = pdu;
        }))))
decode_udt _ = raised runtime_error
