-- ===== src/Sccp/Encode.antt =====
-- The encoder of transport/ScccpCodec.cpp. `packBcd` is `Bcd.pack`.
use gsup_map_proxy.Base.{ℕ, ◌+◌, ◌/◌, ◌%◌, ◌^◌, Bool, not, [], length, ◌==◌, bit_or, if◌then◌else◌}
use gsup_map_proxy.Buffer.{Bytes, uint8, write8, write_bytes}
use gsup_map_proxy.Bcd.{Text, pack}
use gsup_map_proxy.Sccp.{
  SccpAddress, SccpUdt, msg_udt, ai_rout_by_gt, ai_rout_by_ssn, gti_tt_np_es_nai, ai_ssn_present,
  es_bcd_odd, es_bcd_even,
}

abbrev pub is_odd : Text → Bool
is_odd digits = not (length digits % 2 == 0)

-- `addr.np | es` and `nai |= 0x80`, as bytes.
unfoldable pub np_es : ℕ → Bool → ℕ
np_es np odd = uint8 (bit_or np (if odd then es_bcd_odd else es_bcd_even))

unfoldable pub nai_raw : ℕ → Bool → ℕ
nai_raw nai odd = if odd then uint8 (bit_or nai 0x80) else nai

unfoldable pub write_ssn : Bytes → SccpAddress → Bytes
write_ssn w addr = if addr.ssn_present then write8 w addr.ssn else w

unfoldable pub write_point_code : Bytes → SccpAddress → Bytes
write_point_code w addr =
    if addr.pc_present then write8 (write8 w (uint8 addr.pc)) (addr.pc / 2 ^ 8 % 64) else w

-- The `if` on `routeByGt`.
unfoldable pub encode_gt_address : SccpAddress → Bytes
encode_gt_address addr =
    let gt = bit_or ai_rout_by_gt gti_tt_np_es_nai in
    let ai = if addr.ssn_present then bit_or gt ai_ssn_present else gt in
    let odd = is_odd addr.digits in
    let w = write8 (write_ssn (write8 [] ai) addr) addr.tt in
    write_bytes (write8 (write8 w (np_es addr.np odd)) (nai_raw addr.nai odd)) (pack addr.digits)

-- The `else` part.
unfoldable pub encode_ssn_address : SccpAddress → Bytes
encode_ssn_address addr =
    let ssn = bit_or ai_rout_by_ssn ai_ssn_present in
    let ai = if addr.pc_present then bit_or ssn 0x01 else ssn in
    write_point_code (write_ssn (write8 [] ai) addr) addr

unfoldable pub encode_address : SccpAddress → Bytes
encode_address addr = if addr.route_by_gt then encode_gt_address addr else encode_ssn_address addr

-- Each length is cast to a byte.
unfoldable pub encode_udt : SccpUdt → Bytes
encode_udt udt =
    let called = encode_address udt.called_party in
    let calling = encode_address udt.calling_party in
    let ptr2 = uint8 (3 + length called) in
    let ptr3 = uint8 (3 + length called + length calling) in
    let w = write8 (write8 (write8 (write8 (write8 [] msg_udt) udt.protocol_class) 3) ptr2) ptr3 in
    let w = write_bytes (write8 w (uint8 (length called))) called in
    let w = write_bytes (write8 w (uint8 (length calling))) calling in
    write_bytes (write8 w (uint8 (length udt.pdu))) udt.pdu
