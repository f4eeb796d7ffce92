-- ===== src/Host/Types/Messages.antt =====
-- The protobuf messages that the host's link layer sends and reads, with the fields that it uses.
use wl_hosted_core.Prelude.{ℕ, Bool, List}

-- `wlh_protocol_v1_ServiceVersionRange`
pub record ServiceVersionRange : Type 0 where
  pub service_id : ℕ
  pub major : ℕ
  pub min_minor : ℕ
  pub max_minor : ℕ

-- `wlh_protocol_v1_ChannelCapability`
pub record ChannelCapability : Type 0 where
  pub channel_id : ℕ
  pub max_frame_payload : ℕ
  pub max_aggregate_size : ℕ
  pub alignment : ℕ
  pub feature_flags : ℕ

-- `wlh_protocol_v1_HelloRequest`; its two texts and its checksum modes never vary.
pub record HelloRequest : Type 0 where
  pub major : ℕ
  pub min_minor : ℕ
  pub max_minor : ℕ
  pub max_frame_size : ℕ
  pub alignment : ℕ
  pub max_rpc_payload : ℕ
  pub services : List ServiceVersionRange
  pub channels : List ChannelCapability

-- `wlh_protocol_v1_CreditUpdate`
pub record CreditUpdate : Type 0 where
  pub channel_id : ℕ
  pub units : ℕ

-- `wlh_protocol_v1_HelloResponse`.
pub record HelloResponse : Type 0 where
  pub has_selected_protocol : Bool
  pub selected_major : ℕ
  pub session_id : ℕ
  pub implementation_version : List ℕ
  pub max_frame_size : ℕ
  pub services : List ServiceVersionRange
  pub channels : List ChannelCapability
  pub initial_credits : List CreditUpdate

pub record BluetoothEvent : Type 0 where
  pub state : ℕ
  pub reason : ℕ

pub record EthEvent : Type 0 where
  pub link_state : ℕ
  pub speed : ℕ
  pub duplex : ℕ

pub data Message : Type 0 where
  hello_request : HelloRequest → Message
  credit_update : CreditUpdate → Message
