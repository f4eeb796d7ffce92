-- ===== src/Host/Tests.antt =====
-- The theorems of the host core at a concrete host in a concrete environment.
use wl_hosted_core.Prelude.{
  ℕ, ◌+◌, ◌^◌, ◌-◌, ◌≡◌, refl, arith, true, false, [], ◌∷◌, some, update, min, if◌then◌else◌,
}
use wl_hosted_core.Prelude.Word.{u32_max, pos}
use wl_hosted_core.Host.Types.{HostResult, HostState, RpcJob, max_pending}
use wl_hosted_core.Host.Types.Messages.{HelloResponse, CreditUpdate}
use wl_hosted_core.Host.Effects.{same_state}
use wl_hosted_core.Host.Samples.{sample_platform, sample_slot, sample_host}
use wl_hosted_core.Host.Send.{send_payload_frame_units}
use wl_hosted_core.Host.Send.Units.{Account, send_payload_frame_units-Account}
use wl_hosted_core.Host.Pending.{cancel_pending, process_rpc_request}
use wl_hosted_core.Host.Pending.Cancel.{notices, waiting, notices-cancel_pending}
use wl_hosted_core.Host.Pending.Request.{Recorded, process_rpc_request-Recorded}
use wl_hosted_core.Host.Link.{handle_decoded_credit, process_transport_lost}
use wl_hosted_core.Host.Link.Negotiate.{}
use wl_hosted_core.Host.Link.Credit.{handle_decoded_credit_lem}
use wl_hosted_core.Host.Link.Session.{IsForgotten, IsRestarting, process_transport_lost_lem}
use wl_hosted_core.Host.Deadlines.{is_due, host_process_deadlines}
use wl_hosted_core.Host.Deadlines.Expire.{host_process_deadlines-settled}
use wl_hosted_core.Prelude.{List, ◌≢◌}
use wl_hosted_core.Protocol.Rpc.{RpcEnvelope}
use wl_hosted_core.Protocol.RawRecord.{RawRecordView, raw_record_encode, record_header}
use wl_hosted_core.Protocol.RawRecord.Aggregate.{encode_records}
use wl_hosted_core.Host.Ethernet.{process_ethernet_frame}
use wl_hosted_core.Host.Ethernet.Refund.{process_ethernet_frame-encode_records}
use wl_hosted_core.Host.Frame.{process_response}
use wl_hosted_core.Host.Frame.Respond.{IsAnswered, Completes, process_response_lem}

-- An environment that grants whatever it is asked for, at time 500.
abbrev sample_job : RpcJob
sample_job = record {
  service_id = 2;
  method_id = 5;
  request_id = 3;
  timeout_ms = 0;
  completion = 3;
  payload = 1 ∷ 2 ∷ [];
}

send_payload_frame_units-Account_example :
    Account sample_host
      (send_payload_frame_units sample_platform sample_host 2 (1 ∷ []) false 3)
      2
      false
      3
send_payload_frame_units-Account_example =
    send_payload_frame_units-Account sample_platform sample_host 2 (1 ∷ []) false 3

notices-cancel_pending_example :
    notices 2 (cancel_pending sample_platform sample_host HostResult.timeout).trace
    ≡ waiting 2 sample_slot 0 max_pending + 0
notices-cancel_pending_example =
    notices-cancel_pending sample_platform 2 (omega arith) sample_host HostResult.timeout

process_rpc_request-Recorded_example :
    Recorded sample_host sample_job 500 (process_rpc_request sample_platform sample_host sample_job)
process_rpc_request-Recorded_example =
    process_rpc_request-Recorded sample_platform sample_host sample_job

host_process_deadlines-settled_example :
    is_due 500 ((host_process_deadlines sample_platform sample_host).1.pending 0) ≡ false
host_process_deadlines-settled_example =
    host_process_deadlines-settled sample_platform sample_host 0 (omega arith)

process_transport_lost_lem_example :
    IsForgotten (process_transport_lost sample_platform sample_host)
    × IsRestarting (process_transport_lost sample_platform sample_host)
process_transport_lost_lem_example = process_transport_lost_lem sample_platform sample_host refl

abbrev sample_credit : CreditUpdate
sample_credit = record { channel_id = 4; units = 2 ^ 32 - 2 }

handle_decoded_credit_lem_example :
    ((handle_decoded_credit sample_platform sample_host (some sample_credit)).tx_credit
      ≡ update sample_host.tx_credit 4 (min u32_max (4 + (2 ^ 32 - 2))))
    × ((handle_decoded_credit sample_platform sample_host (some sample_credit)).state ≡ (
        if same_state HostState.ready HostState.congested
        then HostState.ready
        else HostState.ready))
handle_decoded_credit_lem_example =
    handle_decoded_credit_lem sample_platform sample_host sample_credit (omega arith) (omega arith)

abbrev sample_hello : HelloResponse
sample_hello = record {
  has_selected_protocol = true;
  selected_major = 1;
  session_id = 9;
  implementation_version = [];
  max_frame_size = 512;
  services = record { service_id = 3; major = 1; min_minor = 0; max_minor = 0 } ∷ [];
  channels =
      record {
        channel_id = 4;
        max_frame_payload = 600;
        max_aggregate_size = 0;
        alignment = 1;
        feature_flags = 0;
      }
      ∷ [];
  initial_credits = [];
}

abbrev sample_records : List RawRecordView
sample_records =
    record { record_type = 1; flags = 0; payload = 7 ∷ 8 ∷ [] }
    ∷ record { record_type = 1; flags = 0; payload = 9 ∷ [] }
    ∷ []

abbrev sample_data : List ℕ
sample_data = 1 ∷ 0 ∷ 8 ∷ 0 ∷ 2 ∷ 0 ∷ 0 ∷ 0 ∷ 7 ∷ 8 ∷ 1 ∷ 0 ∷ 8 ∷ 0 ∷ 1 ∷ 0 ∷ 0 ∷ 0 ∷ 9 ∷ []

process_ethernet_frame-encode_records_example :
    ((process_ethernet_frame sample_platform sample_host 3 sample_data).1.ethernet_rx_pending_credit
      ≡ 1 ∷ 2 ∷ 0 ∷ [])
    × ((process_ethernet_frame sample_platform sample_host 3 sample_data).0
        ≢ HostResult.protocol_error)
unfolding encode_records raw_record_encode record_header
process_ethernet_frame-encode_records_example =
    process_ethernet_frame-encode_records sample_platform sample_host 3 65535 32 sample_records
      sample_data refl (omega arith) (omega arith)

abbrev sample_response : RpcEnvelope
sample_response = record {
  service_id = 2;
  method_id = 3;
  request_id = 2;
  kind = 2;
  flags = 0;
  payload_size = 0;
  status_domain = 0;
  status_code = pos 0;
}

slot_1-IsAnswered : IsAnswered sample_host sample_response 1
slot_1-IsAnswered = record {
  bound = omega arith;
  active = refl;
  session_id = refl;
  request_id = refl;
  service_id = refl;
  method_id = refl;
}

process_response_lem_example :
    (i : ℕ) × Completes sample_host sample_response
      (process_response sample_platform sample_host sample_response [])
      i
process_response_lem_example =
    process_response_lem sample_platform sample_host sample_response [] 1 slot_1-IsAnswered refl

abbrev sample_ota_hello : HelloResponse
sample_ota_hello = record sample_hello {
  services = record { service_id = 4; major = 1; min_minor = 0; max_minor = 0 } ∷ [];
  channels =
      record {
        channel_id = 5;
        max_frame_payload = 2000;
        max_aggregate_size = 0;
        alignment = 1;
        feature_flags = 0;
      }
      ∷ [];
}
