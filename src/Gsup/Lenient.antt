-- ===== src/Gsup/Lenient.antt =====
-- What the GSUP decoder does with elements that the encoder never writes.
use gsup_map_proxy.Base.{
  ℕ, suc, ◌≡◌, refl, Bool, false, ◌||◌, ◌==◌, [], ◌∷◌, ◌++◌, length, some, le→ltb_false, ok, err,
  ◌∙◌, out_of_range, arith,
}
use gsup_map_proxy.Buffer.{Bytes, read8}
use gsup_map_proxy.Buffer.Laws.{read_bytes-append}
use gsup_map_proxy.Buffer.Loop.{until_empty, until_empty_step, until_empty_err}
use gsup_map_proxy.Gsup.{GsupMessage}
use gsup_map_proxy.Gsup.IeTag
use gsup_map_proxy.Gsup.Decode.{skip_rest, decode_cause, skip_ie, decode_ie, decode_round, decode}
use gsup_map_proxy.Gsup.Encode.{encode}
use gsup_map_proxy.Gsup.RoundTrip.{IsEncodable, elements, encode-elements, loop-elements}
use gsup_map_proxy.Gsup.Total.{decode_round-Consumes}
use gsup_map_proxy.Gsup.Rounds.{loop_step}
use gsup_map_proxy.Gsup.Elements.{ie}

-- The tags that the `switch` of the decoder names.
abbrev pub is_known : ℕ → Bool
is_known tag =
    tag == IeTag.imsi
    || (tag == IeTag.cause
        || (tag == IeTag.auth_tuple
            || (tag == IeTag.pdp_info_complete
                || (tag == IeTag.pdp_info
                    || (tag == IeTag.cancel_type
                        || (tag == IeTag.freeze_ptmsi
                            || (tag == IeTag.msisdn
                                || (tag == IeTag.hlr_number
                                    || (tag == IeTag.num_vectors_req
                                        || tag == IeTag.cn_domain)))))))))

-- An element with a tag that the decoder's `switch` does not name is skipped by its length:
-- decoding goes on behind it as if it had not been there.
pub loop_unknown :
    (msg : GsupMessage) (tag : ℕ) (val rest : Bytes)
    → is_known tag ≡ false
    → until_empty decode_round msg (ie tag val ++ rest) ≡ until_empty decode_round msg rest
loop_unknown msg tag val rest u =
    loop_step msg msg tag val rest
      (unfold decode_ie skip_ie in ground (arith, read_bytes-append val rest))

-- The rounds on a Cause element with length 0.
loop_empty_cause :
    (msg : GsupMessage) (b : ℕ) (r : Bytes)
    → until_empty decode_round msg (IeTag.cause ∷ 0 ∷ b ∷ r)
      ≡ until_empty decode_round (record msg { cause = some b }) r
loop_empty_cause msg b r = until_empty_step decode_round decode_round-Consumes _ _ _ r (
    unfold decode_round decode_ie decode_cause skip_rest read8 in
    rw (le→ltb_false (suc (suc (suc (length r)))) 2 (omega arith))
      (rw (le→ltb_false (suc (length r)) 0 (omega arith))))

loop_last_cause :
    (msg : GsupMessage) → until_empty decode_round msg (IeTag.cause ∷ 0 ∷ []) ≡ err out_of_range
loop_last_cause msg =
    until_empty_err decode_round msg IeTag.cause (0 ∷ [])
      (unfold decode_round decode_ie decode_cause read8 in refl)

-- The payload of an encodable message, with more elements behind it.
decode-elements :
    (m : GsupMessage) (bytes rest : Bytes)
    → IsEncodable m
    → encode m ≡ ok bytes
    → decode (bytes ++ rest) ≡ until_empty decode_round m rest
unfolding decode read8
decode-elements m bytes rest v e =
    let same : bytes ≡ m.type ∷ elements m = cc (e, encode-elements m v) in
    rw same (
      rw (le→ltb_false (suc (length (elements m ++ rest))) 1 (omega arith))
        (loop-elements m rest v))

-- The length of a Cause element is not looked at before its byte is read. When a Cause element with
-- length 0 follows the encoded bytes of a message, the byte behind it, whatever it is meant for, is
-- taken as the cause in place of the message's own, and decoding goes on behind that byte; where the
-- payload ends with the element, decoding throws out_of_range.
pub decode_cause_zero_length :
    (m : GsupMessage) (bytes : Bytes) (b : ℕ) (r : Bytes)
    → IsEncodable m
    → encode m ≡ ok bytes
    → (decode (bytes ++ IeTag.cause ∷ 0 ∷ b ∷ r)
        ≡ until_empty decode_round (record m { cause = some b }) r)
      × (decode (bytes ++ IeTag.cause ∷ 0 ∷ []) ≡ err out_of_range)
decode_cause_zero_length m bytes b r v e = (
  decode-elements m bytes _ v e ∙ loop_empty_cause m b r,
  decode-elements m bytes _ v e ∙ loop_last_cause m,
)
