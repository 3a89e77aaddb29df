-- ===== src/M3ua.antt =====
-- transport/M3uaTypes.hpp, and the messages and builders of transport/M3uaCodec.hpp.
pub mod Encode
pub mod Decode
mod Tlv
pub mod Body
mod Total
pub mod RoundTrip
pub mod Stream
use gsup_map_proxy.Base.{ℕ, ◌*◌, Option, none, some, []}
use gsup_map_proxy.Buffer.{Bytes}

abbrev pub version : ℕ
version = 0x01

abbrev pub class_transf : ℕ
class_transf = 0x01

abbrev pub class_aspsm : ℕ
class_aspsm = 0x03

abbrev pub class_asptm : ℕ
class_asptm = 0x04

abbrev pub type_data : ℕ
type_data = 0x01

abbrev pub type_asp_up : ℕ
type_asp_up = 0x01

abbrev pub type_asp_up_ack : ℕ
type_asp_up_ack = 0x02

abbrev pub type_heartbeat : ℕ
type_heartbeat = 0x05

abbrev pub type_heartbeat_ack : ℕ
type_heartbeat_ack = 0x06

abbrev pub type_asp_ac : ℕ
type_asp_ac = 0x01

abbrev pub type_asp_ac_ack : ℕ
type_asp_ac_ack = 0x02

abbrev pub tag_routing_ctx : ℕ
tag_routing_ctx = 0x0006

abbrev pub tag_heartbeat_data : ℕ
tag_heartbeat_data = 0x0009

abbrev pub tag_protocol_data : ℕ
tag_protocol_data = 0x0210

abbrev pub si_sccp : ℕ
si_sccp = 0x03

abbrev pub ni_international : ℕ
ni_international = 0x00

abbrev pub common_header_size : ℕ
common_header_size = 8

abbrev pub max_m3ua_message_size : ℕ
max_m3ua_message_size = 64 * 1024

pub record ProtocolData : Type 0 where
  pub opc : ℕ
  pub dpc : ℕ
  pub si : ℕ
  pub ni : ℕ
  pub mp : ℕ
  pub sls : ℕ
  pub user_data : Bytes

pub record M3uaMessage : Type 0 where
  pub msg_class : ℕ
  pub msg_type : ℕ
  pub routing_context : Option ℕ
  pub protocol_data : Option ProtocolData
  pub heartbeat_data : Bytes

unfoldable pub make_asp_up : M3uaMessage
make_asp_up = record {
  msg_class = class_aspsm;
  msg_type = type_asp_up;
  routing_context = none;
  protocol_data = none;
  heartbeat_data = [];
}

unfoldable pub make_asp_ac : Option ℕ → M3uaMessage
make_asp_ac rc = record {
  msg_class = class_asptm;
  msg_type = type_asp_ac;
  routing_context = rc;
  protocol_data = none;
  heartbeat_data = [];
}

unfoldable pub make_heartbeat : Bytes → M3uaMessage
make_heartbeat beat = record {
  msg_class = class_aspsm;
  msg_type = type_heartbeat;
  routing_context = none;
  protocol_data = none;
  heartbeat_data = beat;
}

unfoldable pub make_heartbeat_ack : Bytes → M3uaMessage
make_heartbeat_ack beat = record {
  msg_class = class_aspsm;
  msg_type = type_heartbeat_ack;
  routing_context = none;
  protocol_data = none;
  heartbeat_data = beat;
}

unfoldable pub make_data : ProtocolData → Option ℕ → M3uaMessage
make_data pd rc = record {
  msg_class = class_transf;
  msg_type = type_data;
  routing_context = rc;
  protocol_data = some pd;
  heartbeat_data = [];
}
