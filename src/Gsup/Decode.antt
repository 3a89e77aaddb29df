-- ===== src/Gsup/Decode.antt =====
-- `decode` of gsup/GsupCodec.cpp, with its helpers.
use gsup_map_proxy.Base.{
  ℕ, ◌+◌, ◌-◌, ◌*◌, ◌^◌, true, [], ◌∷◌, ◌++◌, length, Option, some, ltb, leb, ◌==◌, if◌then◌else◌,
  get_or, Result, ok, err, runtime_error, ◌>>=◌,
}
use gsup_map_proxy.Buffer.{Bytes, remaining, read8, read_bytes, slice}
use gsup_map_proxy.Buffer.Loop.{until_empty}
use gsup_map_proxy.Bcd.{Text, unpack, unpack_unchecked}
use gsup_map_proxy.Gsup.{AuthTuple, PdpInfo, GsupMessage, new_auth_tuple, new_pdp_info, new_message}
use gsup_map_proxy.Gsup.IeTag

unfoldable pub bcd_to_imsi : Bytes → Result Text
bcd_to_imsi bcd = unpack bcd

-- The first byte is the type of number.
unfoldable pub bcd_to_isdn : Bytes → Text
bcd_to_isdn [] = []
bcd_to_isdn (ton ∷ bcd) = unpack_unchecked bcd

-- The head of the loops of `decodeAuthTuple` and `decodePdpInfo`: tag, length and value.
unfoldable pub read_sub_ie : Bytes → Result (ℕ × Bytes × Bytes)
read_sub_ie r = do
  (tag, r) ← read8 r
  (len, r) ← read8 r
  (val, r) ← read_bytes len r
  ok (tag, val, r)

unfoldable pub set_auth_field : ℕ → Bytes → AuthTuple → AuthTuple
set_auth_field tag val t =
    if tag == IeTag.rand
    then record t { rand = val }
    else if tag == IeTag.sres
    then record t { sres = val }
    else if tag == IeTag.kc
    then record t { kc = val }
    else if tag == IeTag.ik
    then record t { ik = some val }
    else if tag == IeTag.ck
    then record t { ck = some val }
    else if tag == IeTag.autn
    then record t { autn = some val }
    else if tag == IeTag.res
    then record t { res = some val }
    else t

unfoldable pub auth_round : AuthTuple → Bytes → Result (AuthTuple × Bytes)
auth_round t r = do (tag, val, r) ← read_sub_ie r; ok (set_auth_field tag val t, r)

unfoldable pub decode_auth_tuple : Bytes → Result AuthTuple
decode_auth_tuple r = until_empty auth_round new_auth_tuple r

-- `val.empty() ? 0 : val[0]`.
abbrev pub first_or_zero : Bytes → ℕ
first_or_zero val = get_or val 0 0

unfoldable pub set_pdp_field : ℕ → Bytes → PdpInfo → PdpInfo
set_pdp_field tag val p =
    if tag == IeTag.pdp_context_id
    then record p { context_id = first_or_zero val }
    else if tag == IeTag.pdp_type
    then (if leb 2 (length val)
        then record p { pdp_type = some (get_or val 0 0 * 2 ^ 8 + get_or val 1 0) }
        else p)
    else if tag == IeTag.access_point_name
    then record p { apn = some val }
    else if tag == IeTag.pdp_address
    then record p { pdp_address = some val }
    else if tag == IeTag.pdp_qos
    then record p { qos = some val }
    else p

unfoldable pub pdp_round : PdpInfo → Bytes → Result (PdpInfo × Bytes)
pdp_round p r = do (tag, val, r) ← read_sub_ie r; ok (set_pdp_field tag val p, r)

unfoldable pub decode_pdp_info : Bytes → Result PdpInfo
decode_pdp_info r = until_empty pdp_round new_pdp_info r

-- `if (ieLen > 1) r.readBytes(ieLen - 1);`
unfoldable pub skip_rest : ℕ → Bytes → Result Bytes
skip_rest len r = if ltb 1 len then (do (skipped, r) ← read_bytes (len - 1) r; ok r) else ok r

-- `if (ieLen >= 1) field = r.read8();`, then the rest of the element is skipped.
unfoldable pub read_optional8 : ℕ → Option ℕ → Bytes → Result (Option ℕ × Bytes)
read_optional8 len old r =
    if leb 1 len
    then (do (v, r) ← read8 r; r ← skip_rest len r; ok (some v, r))
    else (do r ← skip_rest len r; ok (old, r))

module _ (len : ℕ) (msg : GsupMessage) (r : Bytes) where
  unfoldable pub decode_imsi : Result (GsupMessage × Bytes)
  decode_imsi = do
    (bcd, r) ← read_bytes len r
    imsi ← bcd_to_imsi bcd
    ok (record msg { imsi = imsi }, r)

  -- The length is not looked at before the byte is read.
  unfoldable pub decode_cause : Result (GsupMessage × Bytes)
  decode_cause = do (v, r) ← read8 r; r ← skip_rest len r; ok (record msg { cause = some v }, r)

  unfoldable pub decode_auth : Result (GsupMessage × Bytes)
  decode_auth = do
    (sub, r) ← slice len r
    t ← decode_auth_tuple sub
    ok (record msg { auth_tuples = msg.auth_tuples ++ t ∷ [] }, r)

  unfoldable pub decode_complete : Result (GsupMessage × Bytes)
  decode_complete = do
    (skipped, r) ← read_bytes len r
    ok (record msg { pdp_info_complete = true }, r)

  unfoldable pub decode_pdp : Result (GsupMessage × Bytes)
  decode_pdp = do
    (sub, r) ← slice len r
    p ← decode_pdp_info sub
    ok (record msg { pdp_info_list = msg.pdp_info_list ++ p ∷ [] }, r)

  unfoldable pub decode_cancel_type : Result (GsupMessage × Bytes)
  decode_cancel_type = do
    (v, r) ← read_optional8 len msg.cancel_type r
    ok (record msg { cancel_type = v }, r)

  unfoldable pub decode_freeze : Result (GsupMessage × Bytes)
  decode_freeze = do (skipped, r) ← read_bytes len r; ok (record msg { freeze_ptmsi = true }, r)

  unfoldable pub decode_msisdn : Result (GsupMessage × Bytes)
  decode_msisdn = do (v, r) ← read_bytes len r; ok (record msg { msisdn = some v }, r)

  unfoldable pub decode_hlr_number : Result (GsupMessage × Bytes)
  decode_hlr_number = do (v, r) ← read_bytes len r; ok (record msg { hlr_number = some v }, r)

  unfoldable pub decode_num_vectors : Result (GsupMessage × Bytes)
  decode_num_vectors = do
    (v, r) ← read_optional8 len msg.num_vectors_requested r
    ok (record msg { num_vectors_requested = v }, r)

  unfoldable pub decode_cn_domain : Result (GsupMessage × Bytes)
  decode_cn_domain = do
    (v, r) ← read_optional8 len msg.cn_domain r
    ok (record msg { cn_domain = v }, r)

  unfoldable pub skip_ie : Result (GsupMessage × Bytes)
  skip_ie = do (skipped, r) ← read_bytes len r; ok (msg, r)

-- The `switch` of the loop.
unfoldable pub decode_ie : ℕ → ℕ → GsupMessage → Bytes → Result (GsupMessage × Bytes)
decode_ie tag len msg r =
    if tag == IeTag.imsi
    then decode_imsi len msg r
    else if tag == IeTag.cause
    then decode_cause len msg r
    else if tag == IeTag.auth_tuple
    then decode_auth len msg r
    else if tag == IeTag.pdp_info_complete
    then decode_complete len msg r
    else if tag == IeTag.pdp_info
    then decode_pdp len msg r
    else if tag == IeTag.cancel_type
    then decode_cancel_type len msg r
    else if tag == IeTag.freeze_ptmsi
    then decode_freeze len msg r
    else if tag == IeTag.msisdn
    then decode_msisdn len msg r
    else if tag == IeTag.hlr_number
    then decode_hlr_number len msg r
    else if tag == IeTag.num_vectors_req
    then decode_num_vectors len msg r
    else if tag == IeTag.cn_domain
    then decode_cn_domain len msg r
    else skip_ie len msg r

unfoldable pub decode_round : GsupMessage → Bytes → Result (GsupMessage × Bytes)
decode_round msg r = if ltb (remaining r) 2 then err runtime_error else (do
  (tag, r) ← read8 r
  (len, r) ← read8 r
  if ltb (remaining r) len then err runtime_error else decode_ie tag len msg r)

unfoldable pub decode : Bytes → Result GsupMessage
decode payload = if ltb (length payload) 1 then err runtime_error else (do
  (type, r) ← read8 payload
  until_empty decode_round (record new_message { type = type }) r)
