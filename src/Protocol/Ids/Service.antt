-- ===== src/Protocol/Ids/Service.antt =====
-- The service numbers of ids.h.
use wl_hosted_core.Prelude.{ℕ}

abbrev pub invalid : ℕ
invalid = 0

abbrev pub link : ℕ
link = 1

abbrev pub wifi : ℕ
wifi = 2

abbrev pub bluetooth : ℕ
bluetooth = 3

abbrev pub ota : ℕ
ota = 4

abbrev pub diagnostics : ℕ
diagnostics = 5

abbrev pub adc : ℕ
adc = 7

abbrev pub eth : ℕ
eth = 0x0a

abbrev pub user_passthrough : ℕ
user_passthrough = 0x0f
