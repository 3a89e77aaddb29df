-- ===== src/Map/MapOperation.antt =====
-- `enum class MapOperation : uint8_t` of map/MapTypes.hpp: any byte, with names for some.
use gsup_map_proxy.Base.{ℕ}

abbrev pub update_location : ℕ
update_location = 2

abbrev pub cancel_location : ℕ
cancel_location = 3

abbrev pub insert_subscriber_data : ℕ
insert_subscriber_data = 7

abbrev pub delete_subscriber_data : ℕ
delete_subscriber_data = 8

abbrev pub send_authentication_info : ℕ
send_authentication_info = 56

abbrev pub update_gprs_location : ℕ
update_gprs_location = 23

abbrev pub send_routing_info_for_gprs : ℕ
send_routing_info_for_gprs = 24

abbrev pub purge_ms : ℕ
purge_ms = 67

abbrev pub unknown : ℕ
unknown = 0xff
