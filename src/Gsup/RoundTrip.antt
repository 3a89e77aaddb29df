-- ===== src/Gsup/RoundTrip.antt =====
-- The GSUP decoder gives back the message that the encoder was given.
use gsup_map_proxy.Base.{
  suc, ◌≤◌, ◌≡◌, refl, sym, ap, ◌∙◌, true, false, List, [], ◌∷◌, ◌++◌, length, All, le→ltb_false,
  ok, ◌>>=◌, arith, append_assoc, append-nil,
}
use gsup_map_proxy.Buffer.{Bytes, read8, write8}
use gsup_map_proxy.Buffer.Laws.{read_bytes-append}
use gsup_map_proxy.Buffer.Loop.{until_empty_nil}
use gsup_map_proxy.Bcd.{Text, pack}
use gsup_map_proxy.Bcd.RoundTrip.{IsDigit, unpack-pack, length-pack}
use gsup_map_proxy.Gsup.{AuthTuple, PdpInfo, GsupMessage, new_message}
use gsup_map_proxy.Gsup.IeTag
use gsup_map_proxy.Gsup.Decode.{bcd_to_imsi, decode_imsi, decode_ie, decode_round, decode}
use gsup_map_proxy.Gsup.Encode.{
  all_digits, imsi_to_bcd, write_imsi, write_each, encode_auth_tuple, encode_pdp_info, encode,
}
use gsup_map_proxy.Gsup.Rounds.{
  loop, loop_step, loop-cause, loop-num_vectors, loop-cancel_type, loop-cn_domain, loop-msisdn,
  loop-hlr_number, loop_complete, loop-freeze, loop-auth_tuple, loop-pdp_info,
}
use gsup_map_proxy.Gsup.Elements.{
  ie, optional_ie, flag_ie, optional_byte, OptionalFits, write_tlv-ie, write_optional-ie,
  write_optional1-ie, write_flag-ie,
}
use gsup_map_proxy.Gsup.Tuple.{auth_fields, TupleFits, encode_auth_tuple-ie}
use gsup_map_proxy.Gsup.Pdp.{pdp_fields, PdpFits, encode_pdp_info-ie}

-- The IMSI is empty, or has 1 to 15 digits.
abbrev pub IsImsi : Text → Type 0
IsImsi imsi = (length imsi ≤ 15) × All IsDigit imsi

imsi_ie : Text → Bytes
imsi_ie [] = []
imsi_ie (c ∷ cs) = ie IeTag.imsi (pack (c ∷ cs))

all_digits-All : (cs : Text) → All IsDigit cs → all_digits cs ≡ true
unfolding all_digits
all_digits-All [] h = refl
all_digits-All (c ∷ cs) h = rw (all_digits-All cs h.1) (ground arith)

write_imsi-imsi_ie :
    (w : Bytes) (imsi : Text) → IsImsi imsi → write_imsi w imsi ≡ ok (w ++ imsi_ie imsi)
unfolding write_imsi imsi_ie
write_imsi-imsi_ie w [] h = rw (append-nil w)
write_imsi-imsi_ie w (c ∷ cs) h =
    unfold imsi_to_bcd in
    rw (le→ltb_false 15 (length (c ∷ cs)) h.0) (
      rw (all_digits-All (c ∷ cs) h.1)
        (write_tlv-ie w IeTag.imsi (pack (c ∷ cs)) (omega (arith, length-pack (c ∷ cs)))))

loop-imsi :
    (s : GsupMessage) (rest : Bytes) (imsi : Text)
    → s.imsi ≡ []
    → IsImsi imsi
    → loop s (imsi_ie imsi ++ rest) ≡ loop (record s { imsi = imsi }) rest
unfolding imsi_ie
loop-imsi s rest [] e h = ap (λ c. loop (record s { imsi = c }) rest) e
loop-imsi s rest (c ∷ cs) e h = loop_step s _ IeTag.imsi (pack (c ∷ cs)) rest (
    unfold decode_ie decode_imsi bcd_to_imsi in
    rw (read_bytes-append (pack (c ∷ cs)) rest) (rw (unpack-pack (c ∷ cs) h.1)))

auth_ies : List AuthTuple → Bytes
auth_ies [] = []
auth_ies (t ∷ ts) = ie IeTag.auth_tuple (auth_fields t) ++ auth_ies ts

write_each-auth_ies :
    (w : Bytes) (ts : List AuthTuple)
    → All TupleFits ts
    → write_each encode_auth_tuple w ts ≡ ok (w ++ auth_ies ts)
unfolding write_each auth_ies
write_each-auth_ies w [] h = rw (append-nil w)
write_each-auth_ies w (t ∷ ts) h = rw (encode_auth_tuple-ie w t h.0) (
    write_each-auth_ies (w ++ ie IeTag.auth_tuple (auth_fields t)) ts h.1
    ∙ ap ok (append_assoc w (ie IeTag.auth_tuple (auth_fields t)) (auth_ies ts)))

loop-auth_tuples :
    (s : GsupMessage) (ts : List AuthTuple) (rest : Bytes)
    → loop s (auth_ies ts ++ rest) ≡ loop (record s { auth_tuples = s.auth_tuples ++ ts }) rest
unfolding auth_ies
loop-auth_tuples s [] rest =
    ap (λ c. loop (record s { auth_tuples = c }) rest) (sym (append-nil s.auth_tuples))
loop-auth_tuples s (t ∷ ts) rest =
    rw (append_assoc (ie IeTag.auth_tuple (auth_fields t)) (auth_ies ts) rest) (
      loop-auth_tuple s (auth_ies ts ++ rest) t
      ∙ loop-auth_tuples _ ts rest
      ∙ ap (λ c. loop (record s { auth_tuples = c }) rest) (append_assoc s.auth_tuples (t ∷ []) ts))

pdp_ies : List PdpInfo → Bytes
pdp_ies [] = []
pdp_ies (p ∷ ps) = ie IeTag.pdp_info (pdp_fields p) ++ pdp_ies ps

write_each-pdp_ies :
    (w : Bytes) (ps : List PdpInfo)
    → All PdpFits ps
    → write_each encode_pdp_info w ps ≡ ok (w ++ pdp_ies ps)
unfolding write_each pdp_ies
write_each-pdp_ies w [] h = rw (append-nil w)
write_each-pdp_ies w (p ∷ ps) h = rw (encode_pdp_info-ie w p h.0) (
    write_each-pdp_ies (w ++ ie IeTag.pdp_info (pdp_fields p)) ps h.1
    ∙ ap ok (append_assoc w (ie IeTag.pdp_info (pdp_fields p)) (pdp_ies ps)))

loop-pdp_infos :
    (s : GsupMessage) (ps : List PdpInfo) (rest : Bytes)
    → All PdpFits ps
    → loop s (pdp_ies ps ++ rest) ≡ loop (record s { pdp_info_list = s.pdp_info_list ++ ps }) rest
unfolding pdp_ies
loop-pdp_infos s [] rest h =
    ap (λ c. loop (record s { pdp_info_list = c }) rest) (sym (append-nil s.pdp_info_list))
loop-pdp_infos s (p ∷ ps) rest h =
    rw (append_assoc (ie IeTag.pdp_info (pdp_fields p)) (pdp_ies ps) rest) (
      loop-pdp_info s (pdp_ies ps ++ rest) p h.0
      ∙ loop-pdp_infos _ ps rest h.1
      ∙ ap (λ c. loop (record s { pdp_info_list = c }) rest)
          (append_assoc s.pdp_info_list (p ∷ []) ps))

-- What the encoder can carry: an IMSI of at most 15 digits (or none), addresses, tuples and PDP contexts that
-- fit their length bytes, and no `freezePtmsiResult`, which has no element.
pub record IsEncodable (m : GsupMessage) : Type 0 where
  pub imsi_valid : IsImsi m.imsi
  pub tuples_fit : All TupleFits m.auth_tuples
  pub msisdn_fits : OptionalFits m.msisdn
  pub hlr_number_fits : OptionalFits m.hlr_number
  pub pdps_fit : All PdpFits m.pdp_info_list
  pub no_result_flag : m.freeze_ptmsi_result ≡ false

-- The elements of a message, in the encoder's order, and what follows them.
elements_then : GsupMessage → Bytes → Bytes
elements_then m rest =
    imsi_ie m.imsi
    ++ (optional_ie IeTag.cause (optional_byte m.cause)
        ++ (optional_ie IeTag.num_vectors_req (optional_byte m.num_vectors_requested)
            ++ (auth_ies m.auth_tuples
                ++ (optional_ie IeTag.msisdn m.msisdn
                    ++ (optional_ie IeTag.hlr_number m.hlr_number
                        ++ (flag_ie IeTag.pdp_info_complete m.pdp_info_complete
                            ++ (pdp_ies m.pdp_info_list
                                ++ (optional_ie IeTag.cancel_type (optional_byte m.cancel_type)
                                    ++ (flag_ie IeTag.freeze_ptmsi m.freeze_ptmsi
                                        ++ (optional_ie IeTag.cn_domain (optional_byte m.cn_domain)
                                            ++ rest))))))))))

pub elements : GsupMessage → Bytes
unfolding elements_then
elements m = elements_then m []

elements-append : (m : GsupMessage) (rest : Bytes) → elements m ++ rest ≡ elements_then m rest
unfolding elements elements_then
elements-append m rest = simp (append_assoc, append-nil)

pub encode-elements : (m : GsupMessage) → IsEncodable m → encode m ≡ ok (m.type ∷ elements m)
unfolding encode elements elements_then write8
encode-elements m v = rw (write_imsi-imsi_ie _ m.imsi v.imsi_valid) (
    rw (write_optional1-ie _ IeTag.cause m.cause) (
      rw (write_optional1-ie _ IeTag.num_vectors_req m.num_vectors_requested) (
        rw (write_each-auth_ies _ m.auth_tuples v.tuples_fit) (
          rw (write_optional-ie _ IeTag.msisdn m.msisdn v.msisdn_fits) (
            rw (write_optional-ie _ IeTag.hlr_number m.hlr_number v.hlr_number_fits) (
              rw (write_flag-ie _ IeTag.pdp_info_complete m.pdp_info_complete) (
                rw (write_each-pdp_ies _ m.pdp_info_list v.pdps_fit) (
                  rw (write_optional1-ie _ IeTag.cancel_type m.cancel_type) (
                    rw (write_flag-ie _ IeTag.freeze_ptmsi m.freeze_ptmsi) (
                      rw (write_optional1-ie _ IeTag.cn_domain m.cn_domain)
                        (simp (append_assoc, append-nil))))))))))))

loop-elements_then :
    (m : GsupMessage) (rest : Bytes)
    → IsEncodable m
    → loop (record new_message { type = m.type }) (elements_then m rest) ≡ loop m rest
unfolding elements_then
loop-elements_then m rest v =
    loop-imsi _ _ m.imsi refl v.imsi_valid
    ∙ loop-cause _ _ m.cause refl
    ∙ loop-num_vectors _ _ m.num_vectors_requested refl
    ∙ loop-auth_tuples _ m.auth_tuples _
    ∙ loop-msisdn _ _ m.msisdn refl
    ∙ loop-hlr_number _ _ m.hlr_number refl
    ∙ loop_complete _ _ m.pdp_info_complete refl
    ∙ loop-pdp_infos _ m.pdp_info_list _ v.pdps_fit
    ∙ loop-cancel_type _ _ m.cancel_type refl
    ∙ loop-freeze _ _ m.freeze_ptmsi refl
    ∙ loop-cn_domain _ rest m.cn_domain refl
    ∙ ap (λ b. loop (record m { freeze_ptmsi_result = b }) rest) (sym v.no_result_flag)

-- The decoder reads the elements of a message back, and goes on with what follows them.
pub loop-elements :
    (m : GsupMessage) (rest : Bytes)
    → IsEncodable m
    → loop (record new_message { type = m.type }) (elements m ++ rest) ≡ loop m rest
loop-elements m rest v = rw (elements-append m rest) (loop-elements_then m rest v)

-- Decoding what `encode` writes gives the message back, for every message that can be encoded: the encoder
-- throws no exception on it, and every field that it carries is restored.
pub decode-encode : (m : GsupMessage) → IsEncodable m → (encode m >>= decode) ≡ ok m
unfolding decode
decode-encode m v = rw (encode-elements m v) (
    unfold read8 in
    rw (le→ltb_false (suc (length (elements m))) 1 (omega arith)) (
      ap (loop (record new_message { type = m.type })) (sym (append-nil (elements m)))
      ∙ loop-elements m [] v
      ∙ until_empty_nil decode_round m))
