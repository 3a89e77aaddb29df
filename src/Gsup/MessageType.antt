-- ===== src/Gsup/MessageType.antt =====
-- `enum class MessageType : uint8_t` of gsup/GsupTypes.hpp: any byte, with names for some.
use gsup_map_proxy.Base.{ℕ}

abbrev pub update_location_request : ℕ
update_location_request = 0x04

abbrev pub update_location_error : ℕ
update_location_error = 0x05

abbrev pub update_location_result : ℕ
update_location_result = 0x06

abbrev pub send_auth_info_request : ℕ
send_auth_info_request = 0x08

abbrev pub send_auth_info_error : ℕ
send_auth_info_error = 0x09

abbrev pub send_auth_info_result : ℕ
send_auth_info_result = 0x0a

abbrev pub purge_ms_request : ℕ
purge_ms_request = 0x0c

abbrev pub purge_ms_error : ℕ
purge_ms_error = 0x0d

abbrev pub purge_ms_result : ℕ
purge_ms_result = 0x0e

abbrev pub insert_data_request : ℕ
insert_data_request = 0x10

abbrev pub insert_data_error : ℕ
insert_data_error = 0x11

abbrev pub insert_data_result : ℕ
insert_data_result = 0x12

abbrev pub delete_data_request : ℕ
delete_data_request = 0x14

abbrev pub delete_data_error : ℕ
delete_data_error = 0x15

abbrev pub delete_data_result : ℕ
delete_data_result = 0x16

abbrev pub location_cancel_request : ℕ
location_cancel_request = 0x1c

abbrev pub location_cancel_error : ℕ
location_cancel_error = 0x1d

abbrev pub location_cancel_result : ℕ
location_cancel_result = 0x1e

abbrev pub unknown : ℕ
unknown = 0xff
