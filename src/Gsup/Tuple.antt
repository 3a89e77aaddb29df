-- ===== src/Gsup/Tuple.antt =====
-- Authentication tuples: what `encodeAuthTuple` writes, `decodeAuthTuple` reads back.
use gsup_map_proxy.Base.{
  ℕ, ◌≡◌, refl, sym, ap, ◌∙◌, [], ◌++◌, Option, none, some, ok, arith, append_assoc, append-nil,
}
use gsup_map_proxy.Buffer.{Bytes}
use gsup_map_proxy.Buffer.Loop.{until_empty, until_empty_step, until_empty_nil}
use gsup_map_proxy.Gsup.{AuthTuple, new_auth_tuple}
use gsup_map_proxy.Gsup.IeTag
use gsup_map_proxy.Gsup.Decode.{set_auth_field, auth_round, decode_auth_tuple}
use gsup_map_proxy.Gsup.Encode.{write_auth_fields, encode_auth_tuple}
use gsup_map_proxy.Gsup.Total.{auth_round-Consumes}
use gsup_map_proxy.Gsup.Elements.{
  ie, optional_ie, Fits, OptionalFits, write_tlv-ie, write_optional-ie, read_sub_ie-ie, patch8-ie,
}

-- The bytes between the length slot and the end.
unfoldable pub auth_fields : AuthTuple → Bytes
auth_fields t =
    ie IeTag.rand t.rand
    ++ (ie IeTag.sres t.sres
        ++ (ie IeTag.kc t.kc
            ++ (optional_ie IeTag.ik t.ik
                ++ (optional_ie IeTag.ck t.ck
                    ++ (optional_ie IeTag.autn t.autn ++ optional_ie IeTag.res t.res)))))

-- Every field and the whole tuple fit their length bytes.
pub record TupleFits (t : AuthTuple) : Type 0 where
  pub rand_fits : Fits t.rand
  pub sres_fits : Fits t.sres
  pub kc_fits : Fits t.kc
  pub ik_fits : OptionalFits t.ik
  pub ck_fits : OptionalFits t.ck
  pub autn_fits : OptionalFits t.autn
  pub res_fits : OptionalFits t.res
  pub whole_fits : Fits (auth_fields t)

write_auth_fields-auth_fields :
    (w : Bytes) (t : AuthTuple) → TupleFits t → write_auth_fields w t ≡ ok (w ++ auth_fields t)
unfolding write_auth_fields auth_fields
write_auth_fields-auth_fields w t f = rw (write_tlv-ie w IeTag.rand t.rand f.rand_fits) (
    rw (write_tlv-ie _ IeTag.sres t.sres f.sres_fits) (
      rw (write_tlv-ie _ IeTag.kc t.kc f.kc_fits) (
        rw (write_optional-ie _ IeTag.ik t.ik f.ik_fits) (
          rw (write_optional-ie _ IeTag.ck t.ck f.ck_fits) (
            rw (write_optional-ie _ IeTag.autn t.autn f.autn_fits)
              (write_optional-ie _ IeTag.res t.res f.res_fits ∙ simp append_assoc))))))

pub encode_auth_tuple-ie :
    (w : Bytes) (t : AuthTuple)
    → TupleFits t
    → encode_auth_tuple w t ≡ ok (w ++ ie IeTag.auth_tuple (auth_fields t))
unfolding encode_auth_tuple
encode_auth_tuple-ie w t f =
    rw (write_auth_fields-auth_fields _ t f)
      (ap ok (patch8-ie w IeTag.auth_tuple (auth_fields t) f.whole_fits))

auth_step :
    (t : AuthTuple) (tag : ℕ) (val rest : Bytes)
    → until_empty auth_round t (ie tag val ++ rest)
      ≡ until_empty auth_round (set_auth_field tag val t) rest
auth_step t tag val rest =
    until_empty_step auth_round auth_round-Consumes t (set_auth_field tag val t) _ rest
      (unfold auth_round in rw (read_sub_ie-ie tag val rest))

set_optional : ℕ → Option Bytes → AuthTuple → AuthTuple
set_optional tag none t = t
set_optional tag (some val) t = set_auth_field tag val t

auth_optional_step :
    (t : AuthTuple) (tag : ℕ) (o : Option Bytes) (rest : Bytes)
    → until_empty auth_round t (optional_ie tag o ++ rest)
      ≡ until_empty auth_round (set_optional tag o t) rest
unfolding set_optional
auth_optional_step t tag none rest = refl
auth_optional_step t tag (some val) rest = auth_step t tag val rest

with_fields :
    Bytes → Bytes → Bytes → Option Bytes → Option Bytes → Option Bytes → Option Bytes → AuthTuple
with_fields a b c ik ck autn res =
    let t = record new_auth_tuple { rand = a; sres = b; kc = c } in
    set_optional IeTag.res res
      (set_optional IeTag.autn autn (set_optional IeTag.ck ck (set_optional IeTag.ik ik t)))

with_fields_lem : (t : AuthTuple) → with_fields t.rand t.sres t.kc t.ik t.ck t.autn t.res ≡ t
unfolding with_fields set_optional set_auth_field
with_fields_lem t = ground arith

-- `decodeAuthTuple` gives back the tuple whose fields were written.
pub decode_auth_tuple-auth_fields : (t : AuthTuple) → decode_auth_tuple (auth_fields t) ≡ ok t
unfolding decode_auth_tuple auth_fields
decode_auth_tuple-auth_fields t =
    auth_step new_auth_tuple IeTag.rand t.rand _
    ∙ auth_step _ IeTag.sres t.sres _
    ∙ auth_step _ IeTag.kc t.kc _
    ∙ auth_optional_step _ IeTag.ik t.ik _
    ∙ auth_optional_step _ IeTag.ck t.ck _
    ∙ auth_optional_step _ IeTag.autn t.autn _
    ∙ ap (until_empty auth_round _) (sym (append-nil (optional_ie IeTag.res t.res)))
    ∙ auth_optional_step _ IeTag.res t.res []
    ∙ until_empty_nil auth_round _
    ∙ ap ok (unfold with_fields set_auth_field in with_fields_lem t)
