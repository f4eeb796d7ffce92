-- ===== src/Coproc/Bluetooth/Hci/Agree.antt =====
-- The two cores agree on HCI packets: what the coprocessor lets through, the host does not call
-- malformed.
use wl_hosted_core.Prelude.{
  ℕ, ◌≤◌, ◌<◌, ◌≡◌, arith, true, List, [], ◌∷◌, zero, suc, length, drop, get_or, get_or-drop,
}
use wl_hosted_core.Prelude.Word.{IsBytes}
use wl_hosted_core.Prelude.Bits.{bit_or-shifted}
use wl_hosted_core.Protocol.Endian.{byte_at, read_u16_le_unchecked}
use wl_hosted_core.Coproc.Types.{Coproc}
use wl_hosted_core.Coproc.Effects.{is_ok}
use wl_hosted_core.Coproc.Bluetooth.Hci.{acl_length, hci_tx_shape, hci_channel}
use wl_hosted_core.Host.Types.{Host}
use wl_hosted_core.Host.Streams.{hci_rx_record_valid}

byte_bound : (packet : List ℕ) (i : ℕ) → IsBytes packet → byte_at packet i < 256
byte_bound [] i bytes = omega arith
byte_bound (b ∷ packet) zero bytes = bytes.0
byte_bound (b ∷ packet) (suc i) bytes = byte_bound packet i bytes.1

-- Both read the length of an ACL packet alike.
acl_length-eq :
    (packet : List ℕ) → IsBytes packet → read_u16_le_unchecked (drop 2 packet) ≡ acl_length packet
unfolding read_u16_le_unchecked
acl_length-eq packet bytes =
    let low = get_or-drop 2 0 packet 0 in
    let high = get_or-drop 2 1 packet 0 in
    rw
      (
        low,
        high,
        bit_or-shifted 8 (get_or packet 2 0) (get_or packet 3 0) (byte_bound packet 2 bytes),
      )
      (omega (arith, byte_bound packet 2 bytes, byte_bound packet 3 bytes))

-- A packet of the controller whose shape the coprocessor accepts is valid for every host whose
-- records may be so long, on the channel that the coprocessor chooses for it.
pub hci_rx_record_valid-hci_tx_shape :
    (c : Coproc) (h : Host) (h4_type : ℕ) (packet : List ℕ)
    → IsBytes packet
    → is_ok (hci_tx_shape h4_type packet) ≡ true
    → length packet ≤ h.bluetooth_max_record
    → hci_rx_record_valid h
        (hci_channel c h4_type packet)
        (record { record_type = h4_type; flags = 0; payload = packet })
      ≡ true
unfolding hci_tx_shape hci_rx_record_valid
hci_rx_record_valid-hci_tx_shape c h h4_type packet bytes ok fits =
    ground (arith, acl_length-eq packet bytes)
