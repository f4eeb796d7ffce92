-- ===== src/Protocol/Ids/Method.antt =====
-- The method and event numbers of ids.h that the code tests.
use wl_hosted_core.Prelude.{ℕ}

abbrev pub link_hello : ℕ
link_hello = 1

abbrev pub link_credit_update : ℕ
link_credit_update = 2

abbrev pub link_heartbeat : ℕ
link_heartbeat = 3

abbrev pub link_session_changed : ℕ
link_session_changed = 0x8001

abbrev pub wifi_scan_result : ℕ
wifi_scan_result = 0x8001

abbrev pub wifi_scan_completed : ℕ
wifi_scan_completed = 0x8002

abbrev pub wifi_connected : ℕ
wifi_connected = 0x8003

abbrev pub wifi_disconnected : ℕ
wifi_disconnected = 0x8004

abbrev pub wifi_ap_client_joined : ℕ
wifi_ap_client_joined = 0x8005

abbrev pub wifi_ap_client_left : ℕ
wifi_ap_client_left = 0x8006

abbrev pub bluetooth_state_changed : ℕ
bluetooth_state_changed = 0x8001

abbrev pub ota_progress : ℕ
ota_progress = 0x8001

abbrev pub eth_link_state_changed : ℕ
eth_link_state_changed = 0x8001

abbrev pub user_passthrough_result : ℕ
user_passthrough_result = 0x8001

abbrev pub ota_begin : ℕ
ota_begin = 1

abbrev pub ota_finalize : ℕ
ota_finalize = 2

abbrev pub ota_abort : ℕ
ota_abort = 3

abbrev pub ota_activate : ℕ
ota_activate = 4

abbrev pub ota_query : ℕ
ota_query = 5

abbrev pub io_configure : ℕ
io_configure = 1

abbrev pub io_read : ℕ
io_read = 2

abbrev pub io_write : ℕ
io_write = 3

abbrev pub adc_read : ℕ
adc_read = 1

abbrev pub kv_read : ℕ
kv_read = 1

abbrev pub kv_write : ℕ
kv_write = 2

abbrev pub kv_erase : ℕ
kv_erase = 3

abbrev pub eth_get_info : ℕ
eth_get_info = 1

abbrev pub diagnostics_ping : ℕ
diagnostics_ping = 1

abbrev pub bluetooth_initialize : ℕ
bluetooth_initialize = 1

abbrev pub bluetooth_enable : ℕ
bluetooth_enable = 3

abbrev pub bluetooth_disable : ℕ
bluetooth_disable = 4

abbrev pub bluetooth_deinitialize : ℕ
bluetooth_deinitialize = 2

abbrev pub bluetooth_get_info : ℕ
bluetooth_get_info = 5
