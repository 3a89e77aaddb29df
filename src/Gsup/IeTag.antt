-- ===== src/Gsup/IeTag.antt =====
-- `enum class IeTag : uint8_t` of gsup/GsupTypes.hpp: any byte, with names for some.
use gsup_map_proxy.Base.{ℕ}

abbrev pub imsi : ℕ
imsi = 0x01

abbrev pub cause : ℕ
cause = 0x02

abbrev pub auth_tuple : ℕ
auth_tuple = 0x03

abbrev pub pdp_info_complete : ℕ
pdp_info_complete = 0x04

abbrev pub pdp_info : ℕ
pdp_info = 0x05

abbrev pub cancel_type : ℕ
cancel_type = 0x06

abbrev pub freeze_ptmsi : ℕ
freeze_ptmsi = 0x07

abbrev pub msisdn : ℕ
msisdn = 0x08

abbrev pub hlr_number : ℕ
hlr_number = 0x09

abbrev pub num_vectors_req : ℕ
num_vectors_req = 0x10

abbrev pub rand : ℕ
rand = 0x20

abbrev pub sres : ℕ
sres = 0x21

abbrev pub kc : ℕ
kc = 0x22

abbrev pub ik : ℕ
ik = 0x23

abbrev pub ck : ℕ
ck = 0x24

abbrev pub autn : ℕ
autn = 0x25

abbrev pub res : ℕ
res = 0x27

abbrev pub cn_domain : ℕ
cn_domain = 0x28

abbrev pub pdp_context_id : ℕ
pdp_context_id = 0x60

abbrev pub pdp_type : ℕ
pdp_type = 0x61

abbrev pub access_point_name : ℕ
access_point_name = 0x62

abbrev pub pdp_address : ℕ
pdp_address = 0x63

abbrev pub pdp_qos : ℕ
pdp_qos = 0x64
