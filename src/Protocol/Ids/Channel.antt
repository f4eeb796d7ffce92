-- ===== src/Protocol/Ids/Channel.antt =====
-- The channel numbers of ids.h.
use wl_hosted_core.Prelude.{ℕ}

abbrev pub link_control : ℕ
link_control = 0

abbrev pub control_rpc : ℕ
control_rpc = 1

abbrev pub ethernet_sta : ℕ
ethernet_sta = 2

abbrev pub ethernet_ap : ℕ
ethernet_ap = 3

abbrev pub bluetooth_hci : ℕ
bluetooth_hci = 4

abbrev pub ota_stream : ℕ
ota_stream = 5

abbrev pub bluetooth_hci_adv : ℕ
bluetooth_hci_adv = 9

abbrev pub ethernet_eth : ℕ
ethernet_eth = 0x0a
