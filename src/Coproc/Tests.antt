-- ===== src/Coproc/Tests.antt =====
-- The theorems of the coprocessor core at a concrete coprocessor in a concrete environment.
use wl_hosted_core.Osal.Wait.{wait_forever}
use wl_hosted_core.Prelude.{
  ℕ, ◌+◌, ◌-◌, ◌^◌, ◌<◌, ◌≡◌, refl, arith, true, List, [], ◌∷◌, some, replicate,
}
use wl_hosted_core.Prelude.Word.{pos}
use wl_hosted_core.Protocol.Result.{accept}
use wl_hosted_core.Protocol.Ids.Method
use wl_hosted_core.Protocol.Ids.Service
use wl_hosted_core.Protocol.Ids.Status
use wl_hosted_core.Protocol.Rpc.{RpcEnvelope, kind_request, kind_event}
use wl_hosted_core.Protocol.RawRecord.{RawRecordView, raw_record_encode, record_header}
use wl_hosted_core.Protocol.RawRecord.Aggregate.{encode_records}
use wl_hosted_core.Coproc.Types.{CoprocResult, Call, Coproc}
use wl_hosted_core.Protocol.Rpc.{rpc_encode, rpc_envelope_validate, envelope_bytes}
use wl_hosted_core.Protocol.Frame.{frame_encode, frame_header_init, frame_header_validate}
use wl_hosted_core.Coproc.Types.Messages.{heartbeat}
use wl_hosted_core.Coproc.Samples.{sample_platform, sample_transfer, sample_coproc}
use wl_hosted_core.Coproc.Effects.{is_ok, alloc_buffer, free_buffer, set_state}
use wl_hosted_core.Coproc.Effects.Quiet.{Quiet}
use wl_hosted_core.Coproc.Send.{
  envelope, send_payload_units, send_rpc_message, send_credit_update, send_sized_message,
  send_message_bytes, send_rpc, send_encoded, send_payload, submit_frame, submit_tx, charge,
  next_header,
}
use wl_hosted_core.Coproc.Send.Account.{Account, send_payload_units-Account}
use wl_hosted_core.Coproc.Ota.Transfer.{answer}
use wl_hosted_core.Coproc.Ota.Requests.{handle_ota}
use wl_hosted_core.Coproc.Ota.Stream.{process_ota_frame, chunk_of}
use wl_hosted_core.Coproc.Ota.Complete.{ota_operation_completed}
use wl_hosted_core.Coproc.Ota.Sound.{IsSound, flash}
use wl_hosted_core.Coproc.Ota.Steps.{Step, Steps, IsWithin, reachable-IsSound}
use wl_hosted_core.Coproc.Ota.Busy.{is_operation, handle_ota-busy}
use wl_hosted_core.Coproc.Ota.Arrive.{chunk_of-stream_record}
use wl_hosted_core.Host.OtaStream.{stream_record}
use wl_hosted_core.Coproc.Ethernet.{deliver_records, process_ethernet_frame}
use wl_hosted_core.Coproc.Ethernet.Deliver.{taken_over, process_ethernet_frame-pays}
use wl_hosted_core.Coproc.Link.{next_wait_ms, emit_due_heartbeat}
use wl_hosted_core.Coproc.Link.Wait.{IsLater, heartbeat_in_time}
use wl_hosted_core.Coproc.Link.Hello.{
  announced_credits, take_credits, start_session, send_hello_response,
}
use wl_hosted_core.Coproc.Link.Agree.{IsBegun, send_hello_response-IsBegun}

abbrev sample_request : RpcEnvelope
sample_request = envelope Service.ota Method.ota_begin 17 kind_request 0 (pos 0)

-- Sixteen bytes for the start of transfer 1, as a record.
abbrev sample_frame : List ℕ
sample_frame =
    1
    ∷ 0
    ∷ 8
    ∷ 0
    ∷ 32
    ∷ 0
    ∷ 0
    ∷ 0
    ∷ 1
    ∷ 0
    ∷ 0
    ∷ 0
    ∷ 0
    ∷ 0
    ∷ 0
    ∷ 0
    ∷ 0
    ∷ 0
    ∷ 0
    ∷ 0
    ∷ 16
    ∷ 0
    ∷ 0
    ∷ 0
    ∷ replicate 16 90

abbrev sample_begun : Coproc
sample_begun = (handle_ota sample_platform sample_coproc sample_request []).1

abbrev sample_receiving : Coproc
sample_receiving = ota_operation_completed sample_platform sample_begun 1 (pos 0)

abbrev sample_written : Coproc
sample_written = (process_ota_frame sample_platform sample_receiving sample_frame).1

abbrev sample_steps : Steps sample_platform sample_coproc sample_written
sample_steps =
    Steps.next sample_coproc sample_begun sample_written
      (Step.request sample_coproc sample_request [])
      (Steps.next sample_begun sample_receiving sample_written
        (Step.completed sample_begun 1 (pos 0))
        (Steps.next sample_receiving sample_written sample_written
          (Step.frame sample_receiving sample_frame) (Steps.here sample_written)))

sample-IsSound : IsSound sample_coproc
sample-IsSound = record { ordered = tt; tracked = λ e. cc }

reachable-IsSound_example : IsSound sample_written × IsWithin (flash sample_written)
reachable-IsSound_example =
    reachable-IsSound sample_platform sample_coproc sample_written (refl, refl, refl) sample_steps

abbrev waiting_coproc : Coproc
waiting_coproc = record sample_coproc {
  ota = record sample_transfer {
    pending = record {
      active = true;
      operation_id = 4;
      session_id = 5;
      request_id = 16;
      method_id = Method.ota_begin;
    };
  };
}

handle_ota-busy_example :
    Quiet 0 waiting_coproc (handle_ota sample_platform waiting_coproc sample_request []).1
    × (is_operation sample_platform sample_request [] ≡ true
        → handle_ota sample_platform waiting_coproc sample_request []
          ≡ answer sample_platform waiting_coproc sample_request Status.busy)
handle_ota-busy_example = handle_ota-busy sample_platform waiting_coproc sample_request refl []

chunk_of-stream_record_example :
    (frame : List ℕ) × (stream_record (2 ^ 64 - 1) 1 16 (90 ∷ 91 ∷ []) ≡ accept frame)
    × (chunk_of frame
        ≡ some (record { transfer_id = 1; offset = 16; data_size = 2; bytes = 90 ∷ 91 ∷ [] }))
chunk_of-stream_record_example =
    chunk_of-stream_record (2 ^ 64 - 1) 1 16 (90 ∷ 91 ∷ []) (omega arith) (omega arith)
      (omega arith) (omega arith)

send_payload_units-Account_example :
    Account sample_coproc
      (send_payload_units sample_platform sample_coproc 2 (1 ∷ 2 ∷ 3 ∷ []) 2)
      2
      2
send_payload_units-Account_example =
    send_payload_units-Account sample_platform sample_coproc 2 (1 ∷ 2 ∷ 3 ∷ []) 2

abbrev sample_records : List RawRecordView
sample_records =
    record { record_type = 1; flags = 0; payload = 7 ∷ 8 ∷ [] }
    ∷ record { record_type = 2; flags = 0; payload = 9 ∷ [] }
    ∷ []

abbrev sample_aggregate : List ℕ
sample_aggregate = 1 ∷ 0 ∷ 8 ∷ 0 ∷ 2 ∷ 0 ∷ 0 ∷ 0 ∷ 7 ∷ 8 ∷ 2 ∷ 0 ∷ 8 ∷ 0 ∷ 1 ∷ 0 ∷ 0 ∷ 0 ∷ 9 ∷ []

aggregate_encodes : encode_records 4096 4096 sample_records ≡ accept sample_aggregate
unfolding encode_records raw_record_encode record_header
aggregate_encodes = refl

process_ethernet_frame-pays_example :
    let delivered = deliver_records sample_platform sample_coproc 2 sample_records 0 in
    (process_ethernet_frame sample_platform sample_coproc 2 sample_aggregate
      ≡ (CoprocResult.ok, (send_credit_update sample_platform delivered.1 2 delivered.0).1))
    × (delivered.0 + taken_over delivered.1.trace ≡ 2 + taken_over [])
process_ethernet_frame-pays_example =
    process_ethernet_frame-pays sample_platform sample_coproc 2 4096 4096 sample_records
      sample_aggregate aggregate_encodes (omega arith) (omega arith)

hello_is_sent : is_ok (send_hello_response sample_platform sample_coproc 1).0 ≡ true
unfolding send_hello_response alloc_buffer free_buffer take_credits start_session send_rpc_message
    send_sized_message send_message_bytes send_rpc send_encoded send_payload send_payload_units
    submit_frame submit_tx charge set_state next_header rpc_encode rpc_envelope_validate
    envelope_bytes frame_encode frame_header_init frame_header_validate
hello_is_sent = refl

send_hello_response-IsBegun_example :
    IsBegun sample_coproc.tx_credit
      (announced_credits sample_coproc)
      (send_hello_response sample_platform sample_coproc 1).1
send_hello_response-IsBegun_example =
    send_hello_response-IsBegun sample_platform sample_coproc 1 hello_is_sent

-- One second later: a hundred calls.
abbrev later : Coproc
later = record sample_coproc { trace = replicate 100 (Call.clock 0) }

sample_wait : next_wait_ms sample_platform sample_coproc ≡ 1000
unfolding next_wait_ms
sample_wait = refl

later-IsLater : IsLater sample_platform sample_coproc later
later-IsLater = record {
  state = refl;
  config = refl;
  last_heartbeat_ms = refl;
  waited = omega (arith, sample_wait);
  fits = omega arith;
}

-- With the call that asks for the time and the one that asks for a buffer.
abbrev granted : Coproc
granted = record later { trace = Call.alloc 32 ∷ Call.clock 1000 ∷ later.trace }

abbrev sample_sent : Coproc
sample_sent =
    (send_rpc_message sample_platform granted
      (envelope Service.link Method.link_heartbeat 0 kind_event Status.domain_none Status.ok)
      (heartbeat (record { session_id = 5; uptime_ms = 1000 - 0; monotonic_ms = 1000 }))).1

heartbeat_in_time_example :
    (next_wait_ms sample_platform sample_coproc < wait_forever)
    × ((emit_due_heartbeat sample_platform later).1
        ≡ record sample_sent { trace = Call.free ∷ sample_sent.trace; last_heartbeat_ms = 1000 })
heartbeat_in_time_example =
    heartbeat_in_time sample_platform sample_coproc refl (omega arith) (omega arith) later
      later-IsLater (omega arith) (omega arith) refl

abbrev voltage_request : RpcEnvelope
voltage_request = envelope Service.adc Method.adc_read 18 kind_request 0 (pos 0)
