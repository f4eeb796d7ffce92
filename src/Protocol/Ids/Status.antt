-- ===== src/Protocol/Ids/Status.antt =====
-- The status domains and codes of ids.h.
use wl_hosted_core.Prelude.{ℕ}
use wl_hosted_core.Prelude.Word.{ℤ, pos, negsuc}

abbrev pub domain_none : ℕ
domain_none = 0

abbrev pub domain_link : ℕ
domain_link = 3

abbrev pub ok : ℤ
ok = pos 0

abbrev pub no_memory : ℤ
no_memory = negsuc 5

abbrev pub timeout : ℤ
timeout = negsuc 7

abbrev pub session_changed : ℤ
session_changed = negsuc 10

abbrev pub internal : ℤ
internal = negsuc 19

abbrev pub domain_protocol : ℕ
domain_protocol = 1

abbrev pub domain_wifi : ℕ
domain_wifi = 4

abbrev pub domain_ota : ℕ
domain_ota = 6

abbrev pub invalid_argument : ℤ
invalid_argument = negsuc 0

abbrev pub not_supported : ℤ
not_supported = negsuc 1

abbrev pub not_ready : ℤ
not_ready = negsuc 2

abbrev pub busy : ℤ
busy = negsuc 3

abbrev pub version_mismatch : ℤ
version_mismatch = negsuc 9

abbrev pub not_found : ℤ
not_found = negsuc 14

abbrev pub resource_exhausted : ℤ
resource_exhausted = negsuc 18

abbrev pub domain_peripheral : ℕ
domain_peripheral = 7

abbrev pub domain_storage : ℕ
domain_storage = 8

abbrev pub domain_bluetooth : ℕ
domain_bluetooth = 5

abbrev pub domain_device_info : ℕ
domain_device_info = 9

abbrev pub domain_user : ℕ
domain_user = 10

abbrev pub domain_eth : ℕ
domain_eth = 11
