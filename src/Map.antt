-- ===== src/Map.antt =====
-- map/MapMessage.hpp and map/MapCodec.cpp: MAP messages in TCAP. The encoder and the decoder are in
-- `Encode` and `Decode`.
pub mod MapOperation
pub mod Tag
pub mod Encode
pub mod Decode
pub mod Total
pub mod Envelope
pub mod ReturnError
pub mod Invoke
pub mod Requests
pub mod InsertData
use gsup_map_proxy.Base.{ℕ, Bool, true, false, List, [], Option, none}
use gsup_map_proxy.Buffer.{Bytes}
use gsup_map_proxy.Bcd.{Text}
use MapOperation

pub record MapAuthTriplet : Type 0 where
  pub rand : Bytes
  pub sres : Bytes
  pub kc : Bytes

pub record MapAuthQuintuplet : Type 0 where
  pub rand : Bytes
  pub xres : Bytes
  pub ck : Bytes
  pub ik : Bytes
  pub autn : Bytes

pub data ComponentType : Type 0 where
  invoke return_result return_error reject : ComponentType

pub record MapMessage : Type 0 where
  pub transaction_id : ℕ
  pub component : ComponentType
  pub invoke_id : ℕ
  pub is_last_component : Bool
  pub operation : ℕ
  pub imsi : Text
  pub num_requested_vectors : Option ℕ
  pub auth_triplets : List MapAuthTriplet
  pub auth_quintuplets : List MapAuthQuintuplet
  pub sgsn_number : Option Bytes
  pub sgsn_address : Option Bytes
  pub hlr_number : Option Bytes
  pub msisdn : Option Bytes
  pub cancel_type : Option ℕ
  pub freeze_ptmsi : Bool
  pub error_code : Option ℕ

-- The structure as its default initialisers leave it.
abbrev pub new_message : MapMessage
new_message = record {
  transaction_id = 0;
  component = invoke;
  invoke_id = 1;
  is_last_component = true;
  operation = MapOperation.unknown;
  imsi = [];
  num_requested_vectors = none;
  auth_triplets = [];
  auth_quintuplets = [];
  sgsn_number = none;
  sgsn_address = none;
  hlr_number = none;
  msisdn = none;
  cancel_type = none;
  freeze_ptmsi = false;
  error_code = none;
}
