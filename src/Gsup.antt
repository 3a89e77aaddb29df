-- ===== src/Gsup.antt =====
-- gsup/GsupMessage.hpp and gsup/GsupCodec.cpp: GSUP messages. The decoder and the encoder are in
-- `Decode` and `Encode`. An `enum class` over `uint8_t` is the byte itself.
pub mod MessageType
pub mod IeTag
pub mod Decode
pub mod Encode
pub mod Total
pub mod Elements
pub mod Tuple
pub mod Pdp
pub mod Rounds
pub mod RoundTrip
pub mod Lenient
use gsup_map_proxy.Base.{ℕ, Bool, false, List, [], Option, none}
use gsup_map_proxy.Buffer.{Bytes}
use gsup_map_proxy.Bcd.{Text}
use MessageType

pub record AuthTuple : Type 0 where
  pub rand : Bytes
  pub sres : Bytes
  pub kc : Bytes
  pub ik : Option Bytes
  pub ck : Option Bytes
  pub autn : Option Bytes
  pub res : Option Bytes

pub record PdpInfo : Type 0 where
  pub context_id : ℕ
  pub pdp_type : Option ℕ
  pub apn : Option Text
  pub pdp_address : Option Bytes
  pub qos : Option Bytes

pub record GsupMessage : Type 0 where
  pub type : ℕ
  pub imsi : Text
  pub cause : Option ℕ
  pub num_vectors_requested : Option ℕ
  pub auth_tuples : List AuthTuple
  pub msisdn : Option Bytes
  pub hlr_number : Option Bytes
  pub cn_domain : Option ℕ
  pub pdp_info_list : List PdpInfo
  pub pdp_info_complete : Bool
  pub cancel_type : Option ℕ
  pub freeze_ptmsi : Bool
  pub freeze_ptmsi_result : Bool

-- The structures as their default initialisers leave them.
abbrev pub new_auth_tuple : AuthTuple
new_auth_tuple = record {
  rand = [];
  sres = [];
  kc = [];
  ik = none;
  ck = none;
  autn = none;
  res = none;
}

abbrev pub new_pdp_info : PdpInfo
new_pdp_info = record {
  context_id = 0;
  pdp_type = none;
  apn = none;
  pdp_address = none;
  qos = none;
}

abbrev pub new_message : GsupMessage
new_message = record {
  type = MessageType.unknown;
  imsi = [];
  cause = none;
  num_vectors_requested = none;
  auth_tuples = [];
  msisdn = none;
  hlr_number = none;
  cn_domain = none;
  pdp_info_list = [];
  pdp_info_complete = false;
  cancel_type = none;
  freeze_ptmsi = false;
  freeze_ptmsi_result = false;
}
