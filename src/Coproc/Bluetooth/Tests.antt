-- ===== src/Coproc/Bluetooth/Tests.antt =====
-- The theorems of the Bluetooth controller at a concrete coprocessor.
use wl_hosted_core.Prelude.{ℕ, ◌≡◌, refl, arith, true, List, [], ◌∷◌}
use wl_hosted_core.Prelude.Word.{pos, negsuc}
use wl_hosted_core.Protocol.Ids.Channel
use wl_hosted_core.Protocol.Ids.Method
use wl_hosted_core.Protocol.Ids.Service
use wl_hosted_core.Protocol.Rpc.{RpcEnvelope, kind_request}
use wl_hosted_core.Protocol.RawRecord.Records.{records_of}
use wl_hosted_core.Coproc.Samples.{sample_platform, sample_coproc}
use wl_hosted_core.Coproc.Effects.{is_ok}
use wl_hosted_core.Coproc.Send.{envelope}
use wl_hosted_core.Coproc.Bluetooth.Controller.{Operation, controller}
use wl_hosted_core.Coproc.Bluetooth.History.{Steps, history, history-Steps}
use wl_hosted_core.Coproc.Bluetooth.Hci.{
  hci_tx_shape, hci_channel, process_hci_frame, bluetooth_hci_send,
}
use wl_hosted_core.Coproc.Bluetooth.Hci.Deliver.{is_well_formed, IsWhole, process_hci_frame-IsWhole}
use wl_hosted_core.Coproc.Bluetooth.Hci.Reserve.{record_of, Reserves, bluetooth_hci_send-Reserves}
use wl_hosted_core.Coproc.Bluetooth.Hci.Agree.{hci_rx_record_valid-hci_tx_shape}
use wl_hosted_core.Host.Streams.{hci_rx_record_valid}
use wl_hosted_core.Host.Samples.{sample_host}

abbrev turn_on : ℕ → RpcEnvelope
turn_on method_id = envelope Service.bluetooth method_id 21 kind_request 0 (pos 0)

-- Initialised and enabled, then a failure, and a completion that nothing waits for.
abbrev operations : List Operation
operations =
    Operation.requested (turn_on Method.bluetooth_initialize) []
    ∷ Operation.completed 1 (pos 0)
    ∷ Operation.requested (turn_on Method.bluetooth_enable) []
    ∷ Operation.completed 2 (pos 0)
    ∷ Operation.broken 7
    ∷ Operation.completed 3 (negsuc 4)
    ∷ []

history-Steps_example :
    Steps (controller sample_coproc) operations (history sample_platform sample_coproc operations)
history-Steps_example = history-Steps sample_platform sample_coproc operations (omega arith)

-- One record with HCI_Reset.
abbrev reset_frame : List ℕ
reset_frame = 1 ∷ 0 ∷ 8 ∷ 0 ∷ 3 ∷ 0 ∷ 0 ∷ 0 ∷ 3 ∷ 12 ∷ 0 ∷ []

process_hci_frame-IsWhole_example :
    IsWhole
      (is_well_formed reset_frame)
      sample_coproc
      (records_of reset_frame).1
      (process_hci_frame sample_platform sample_coproc reset_frame)
process_hci_frame-IsWhole_example =
    process_hci_frame-IsWhole sample_platform sample_coproc reset_frame refl refl

-- An event: HCI_Reset is complete.
abbrev reset_complete : List ℕ
reset_complete = 14 ∷ 4 ∷ 1 ∷ 3 ∷ 12 ∷ 0 ∷ []

bluetooth_hci_send-Reserves_example :
    Reserves
      (record_of 4096 4 reset_complete)
      sample_coproc
      Channel.bluetooth_hci
      (bluetooth_hci_send sample_platform 4096 sample_coproc 4 reset_complete)
bluetooth_hci_send-Reserves_example =
    bluetooth_hci_send-Reserves sample_platform 4096 sample_coproc 4 reset_complete (omega arith)

shape_is_ok : is_ok (hci_tx_shape 4 reset_complete) ≡ true
unfolding hci_tx_shape
shape_is_ok = refl

hci_rx_record_valid-hci_tx_shape_example :
    hci_rx_record_valid sample_host
      (hci_channel sample_coproc 4 reset_complete)
      (record { record_type = 4; flags = 0; payload = reset_complete })
    ≡ true
hci_rx_record_valid-hci_tx_shape_example =
    hci_rx_record_valid-hci_tx_shape sample_coproc sample_host 4 reset_complete
      (omega arith, (omega arith, (omega arith, (omega arith, (omega arith, (omega arith, _))))))
      shape_is_ok (omega arith)
