-- ===== src/Sccp.antt =====
-- transport/ScccpTypes.hpp, and the addresses and messages of transport/ScccpCodec.hpp.
pub mod Encode
pub mod Decode
pub mod Address
pub mod RoundTrip
use gsup_map_proxy.Base.{ℕ, Bool, true, false, [], if◌then◌else◌}
use gsup_map_proxy.Buffer.{Bytes}
use gsup_map_proxy.Bcd.{Text}

abbrev pub msg_udt : ℕ
msg_udt = 0x09

abbrev pub proto_class0 : ℕ
proto_class0 = 0x00

abbrev pub ai_rout_by_gt : ℕ
ai_rout_by_gt = 0x00

abbrev pub ai_rout_by_ssn : ℕ
ai_rout_by_ssn = 0x80

abbrev pub gti_no_gt : ℕ
gti_no_gt = 0x00

abbrev pub gti_tt_np_es_nai : ℕ
gti_tt_np_es_nai = 0x40

abbrev pub ai_ssn_present : ℕ
ai_ssn_present = 0x08

abbrev pub np_isdn_telephony : ℕ
np_isdn_telephony = 0x10

abbrev pub es_bcd_odd : ℕ
es_bcd_odd = 0x01

abbrev pub es_bcd_even : ℕ
es_bcd_even = 0x02

abbrev pub nai_international : ℕ
nai_international = 0x04

abbrev pub tt_international : ℕ
tt_international = 0x00

pub record SccpAddress : Type 0 where
  pub route_by_gt : Bool
  pub digits : Text
  pub tt : ℕ
  pub np : ℕ
  pub nai : ℕ
  pub ssn_present : Bool
  pub ssn : ℕ
  pub pc_present : Bool
  pub pc : ℕ

-- A `SccpAddress` with the header's initial values.
abbrev pub default_address : SccpAddress
default_address = record {
  route_by_gt = true;
  digits = [];
  tt = tt_international;
  np = np_isdn_telephony;
  nai = nai_international;
  ssn_present = false;
  ssn = 0;
  pc_present = false;
  pc = 0;
}

pub record SccpUdt : Type 0 where
  pub protocol_class : ℕ
  pub called_party : SccpAddress
  pub calling_party : SccpAddress
  pub pdu : Bytes

unfoldable pub make_gt_address : Text → ℕ → Bool → SccpAddress
make_gt_address digits ssn has_ssn =
    let a = record default_address {
      route_by_gt = true;
      digits = digits;
      tt = tt_international;
      np = np_isdn_telephony;
      nai = nai_international;
    } in
    if has_ssn then record a { ssn_present = true; ssn = ssn } else a

unfoldable pub make_ssn_address : ℕ → ℕ → SccpAddress
make_ssn_address pc ssn = record default_address {
  route_by_gt = false;
  pc_present = true;
  pc = pc;
  ssn_present = true;
  ssn = ssn;
}
