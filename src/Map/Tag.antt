-- ===== src/Map/Tag.antt =====
-- The TCAP, component and BER tags of map/MapTypes.hpp.
use gsup_map_proxy.Base.{ℕ}

abbrev pub tcap_unidirectional : ℕ
tcap_unidirectional = 0x61

abbrev pub tcap_begin : ℕ
tcap_begin = 0x62

abbrev pub tcap_end : ℕ
tcap_end = 0x64

abbrev pub tcap_continue : ℕ
tcap_continue = 0x65

abbrev pub tcap_abort : ℕ
tcap_abort = 0x67

abbrev pub tcap_otid : ℕ
tcap_otid = 0x48

abbrev pub tcap_dtid : ℕ
tcap_dtid = 0x49

abbrev pub tcap_dialogue : ℕ
tcap_dialogue = 0x6b

abbrev pub tcap_components : ℕ
tcap_components = 0x6c

abbrev pub invoke : ℕ
invoke = 0xa1

abbrev pub return_result : ℕ
return_result = 0xa2

abbrev pub return_error : ℕ
return_error = 0xa3

abbrev pub reject : ℕ
reject = 0xa4

abbrev pub ber_int : ℕ
ber_int = 0x02

abbrev pub ber_octet_str : ℕ
ber_octet_str = 0x04

abbrev pub ber_null : ℕ
ber_null = 0x05

abbrev pub ber_oid : ℕ
ber_oid = 0x06

abbrev pub ber_sequence : ℕ
ber_sequence = 0x30

abbrev pub ber_set : ℕ
ber_set = 0x31
