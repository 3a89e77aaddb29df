-- ===== src/Gsup/Rounds.antt =====
-- The rounds of the GSUP decoder's loop, element by element.
use gsup_map_proxy.Base.{
  ℕ, suc, ◌≡◌, refl, ap, Bool, true, false, [], ◌∷◌, ◌++◌, length, Option, none, some, le→ltb_false,
  Result, ok, arith, length-append,
}
use gsup_map_proxy.Buffer.{Bytes, read8, slice}
use gsup_map_proxy.Buffer.Laws.{read_bytes-append}
use gsup_map_proxy.Buffer.Loop.{until_empty, until_empty_step}
use gsup_map_proxy.Gsup.{AuthTuple, PdpInfo, GsupMessage}
use gsup_map_proxy.Gsup.IeTag
use gsup_map_proxy.Gsup.Decode.{
  skip_rest, read_optional8, decode_cause, decode_auth, decode_complete, decode_pdp,
  decode_cancel_type, decode_freeze, decode_msisdn, decode_hlr_number, decode_num_vectors,
  decode_cn_domain, decode_ie, decode_round,
}
use gsup_map_proxy.Gsup.Total.{decode_round-Consumes}
use gsup_map_proxy.Gsup.Elements.{ie, optional_ie, flag_ie, optional_byte}
use gsup_map_proxy.Gsup.Tuple.{auth_fields, decode_auth_tuple-auth_fields}
use gsup_map_proxy.Gsup.Pdp.{pdp_fields, PdpFits, decode_pdp_info-pdp_fields}

-- The loop of the decoder.
abbrev pub loop : GsupMessage → Bytes → Result GsupMessage
loop = until_empty decode_round

-- One round on an element.
pub loop_step :
    (s s' : GsupMessage) (tag : ℕ) (val rest : Bytes)
    → decode_ie tag (length val) s (val ++ rest) ≡ ok (s', rest)
    → loop s (ie tag val ++ rest) ≡ loop s' rest
loop_step s s' tag val rest e = until_empty_step decode_round decode_round-Consumes s s' _ rest (
    unfold decode_round read8 in
    rw (le→ltb_false (suc (suc (length (val ++ rest)))) 2 (omega arith)) (
      rw (le→ltb_false (length (val ++ rest)) (length val) (omega (arith, length-append val rest)))
        e))

module _ (s : GsupMessage) (rest : Bytes) where
  pub loop-cause :
      (o : Option ℕ)
      → s.cause ≡ none
      → loop s (optional_ie IeTag.cause (optional_byte o) ++ rest)
        ≡ loop (record s { cause = o }) rest
  loop-cause none e = ap (λ c. loop (record s { cause = c }) rest) e
  loop-cause (some v) e =
      loop_step s _ IeTag.cause (v ∷ []) rest
        (unfold decode_ie decode_cause skip_rest read8 in refl)

  pub loop-num_vectors :
      (o : Option ℕ)
      → s.num_vectors_requested ≡ none
      → loop s (optional_ie IeTag.num_vectors_req (optional_byte o) ++ rest)
        ≡ loop (record s { num_vectors_requested = o }) rest
  loop-num_vectors none e = ap (λ c. loop (record s { num_vectors_requested = c }) rest) e
  loop-num_vectors (some v) e =
      loop_step s _ IeTag.num_vectors_req (v ∷ []) rest
        (unfold decode_ie decode_num_vectors read_optional8 skip_rest read8 in refl)

  pub loop-cancel_type :
      (o : Option ℕ)
      → s.cancel_type ≡ none
      → loop s (optional_ie IeTag.cancel_type (optional_byte o) ++ rest)
        ≡ loop (record s { cancel_type = o }) rest
  loop-cancel_type none e = ap (λ c. loop (record s { cancel_type = c }) rest) e
  loop-cancel_type (some v) e =
      loop_step s _ IeTag.cancel_type (v ∷ []) rest
        (unfold decode_ie decode_cancel_type read_optional8 skip_rest read8 in refl)

  pub loop-cn_domain :
      (o : Option ℕ)
      → s.cn_domain ≡ none
      → loop s (optional_ie IeTag.cn_domain (optional_byte o) ++ rest)
        ≡ loop (record s { cn_domain = o }) rest
  loop-cn_domain none e = ap (λ c. loop (record s { cn_domain = c }) rest) e
  loop-cn_domain (some v) e =
      loop_step s _ IeTag.cn_domain (v ∷ []) rest
        (unfold decode_ie decode_cn_domain read_optional8 skip_rest read8 in refl)

  pub loop-msisdn :
      (o : Option Bytes)
      → s.msisdn ≡ none
      → loop s (optional_ie IeTag.msisdn o ++ rest) ≡ loop (record s { msisdn = o }) rest
  loop-msisdn none e = ap (λ c. loop (record s { msisdn = c }) rest) e
  loop-msisdn (some v) e =
      loop_step s _ IeTag.msisdn v rest
        (unfold decode_ie decode_msisdn in rw (read_bytes-append v rest))

  pub loop-hlr_number :
      (o : Option Bytes)
      → s.hlr_number ≡ none
      → loop s (optional_ie IeTag.hlr_number o ++ rest) ≡ loop (record s { hlr_number = o }) rest
  loop-hlr_number none e = ap (λ c. loop (record s { hlr_number = c }) rest) e
  loop-hlr_number (some v) e =
      loop_step s _ IeTag.hlr_number v rest
        (unfold decode_ie decode_hlr_number in rw (read_bytes-append v rest))

  pub loop_complete :
      (b : Bool)
      → s.pdp_info_complete ≡ false
      → loop s (flag_ie IeTag.pdp_info_complete b ++ rest)
        ≡ loop (record s { pdp_info_complete = b }) rest
  loop_complete false e = ap (λ c. loop (record s { pdp_info_complete = c }) rest) e
  loop_complete true e =
      loop_step s _ IeTag.pdp_info_complete [] rest
        (unfold decode_ie decode_complete in rw (read_bytes-append [] rest))

  pub loop-freeze :
      (b : Bool)
      → s.freeze_ptmsi ≡ false
      → loop s (flag_ie IeTag.freeze_ptmsi b ++ rest) ≡ loop (record s { freeze_ptmsi = b }) rest
  loop-freeze false e = ap (λ c. loop (record s { freeze_ptmsi = c }) rest) e
  loop-freeze true e =
      loop_step s _ IeTag.freeze_ptmsi [] rest
        (unfold decode_ie decode_freeze in rw (read_bytes-append [] rest))

  pub loop-auth_tuple :
      (t : AuthTuple)
      → loop s (ie IeTag.auth_tuple (auth_fields t) ++ rest)
        ≡ loop (record s { auth_tuples = s.auth_tuples ++ t ∷ [] }) rest
  loop-auth_tuple t = loop_step s _ IeTag.auth_tuple (auth_fields t) rest (
      unfold decode_ie decode_auth slice in
      rw (read_bytes-append (auth_fields t) rest) (rw (decode_auth_tuple-auth_fields t)))

  pub loop-pdp_info :
      (p : PdpInfo)
      → PdpFits p
      → loop s (ie IeTag.pdp_info (pdp_fields p) ++ rest)
        ≡ loop (record s { pdp_info_list = s.pdp_info_list ++ p ∷ [] }) rest
  loop-pdp_info p f = loop_step s _ IeTag.pdp_info (pdp_fields p) rest (
      unfold decode_ie decode_pdp slice in
      rw (read_bytes-append (pdp_fields p) rest) (rw (decode_pdp_info-pdp_fields p f.type_fits)))
