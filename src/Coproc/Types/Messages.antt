-- ===== src/Coproc/Types/Messages.antt =====
-- The protobuf messages that the coprocessor sends and reads, and what passes between it and its
-- backends, with the fields that they use.
use wl_hosted_core.Prelude.{ℕ, Bool, List}
use wl_hosted_core.Prelude.Word.{ℤ}

-- What the core reads of `wlh_protocol_v1_HelloRequest`: the major numbers of the versions, the
-- channel numbers and the frame size.
pub record HelloRequest : Type 0 where
  pub protocol_majors : List ℕ
  pub channels : List ℕ
  pub max_frame_size : ℕ

-- `wlh_protocol_v1_ChannelCapability`
pub record ChannelCapability : Type 0 where
  pub channel_id : ℕ
  pub max_frame_payload : ℕ
  pub alignment : ℕ

-- `wlh_protocol_v1_CreditUpdate`; its third field is always 1 where the core sets it.
pub record CreditUpdate : Type 0 where
  pub channel_id : ℕ
  pub units : ℕ

-- `wlh_protocol_v1_HelloResponse`; its name, checksum mode and protocol version never vary, nor
-- does the major number of its services.
pub record HelloResponse : Type 0 where
  pub session_id : ℕ
  pub boot_id : ℕ
  pub implementation_version : List ℕ
  pub max_frame_size : ℕ
  pub services : List ℕ
  pub channels : List ChannelCapability
  pub initial_credits : List CreditUpdate

-- `wlh_protocol_v1_Heartbeat`; its state is always LINK_STATE_HEALTHY.
pub record Heartbeat : Type 0 where
  pub session_id : ℕ
  pub uptime_ms : ℕ
  pub monotonic_ms : ℕ

pub record OtaBeginRequest : Type 0 where
  pub image_type : ℕ
  pub image_size : ℕ
  pub sha256 : List ℕ
  pub target_version : List ℕ
  pub slot : List ℕ
  pub signature : List ℕ

-- `wlh_coproc_ota_begin_params_t`
pub record OtaBeginParams : Type 0 where
  pub image_type : ℕ
  pub image_size : ℕ
  pub sha256 : List ℕ
  pub target_version : List ℕ
  pub slot : List ℕ
  pub signature : List ℕ

pub record OtaFinalizeRequest : Type 0 where
  pub transfer_id : ℕ
  pub bytes_sent : ℕ

pub record OtaActivateRequest : Type 0 where
  pub transfer_id : ℕ
  pub reboot : Bool

pub record OtaBeginResponse : Type 0 where
  pub transfer_id : ℕ
  pub stream_chunk_size : ℕ
  pub stream_alignment : ℕ

-- The state is given by its number.
pub record OtaQueryResponse : Type 0 where
  pub state : ℕ
  pub transfer_id : ℕ
  pub image_size : ℕ
  pub bytes_received : ℕ
  pub target_version : List ℕ

pub record OtaProgressEvent : Type 0 where
  pub transfer_id : ℕ
  pub state : ℕ
  pub bytes_received : ℕ

-- `wlh_coproc_io_config_t`, which has the fields of `wlh_protocol_v1_IoConfigureRequest`; modes and
-- pulls are given by their numbers.
pub record IoConfig : Type 0 where
  pub pin_id : ℕ
  pub mode : ℕ
  pub pull : ℕ
  pub initial_level : Bool

-- `wlh_coproc_io_state_t`
pub record IoState : Type 0 where
  pub level : Bool
  pub mode : ℕ
  pub pull : ℕ

pub record IoReadResponse : Type 0 where
  pub pin_id : ℕ
  pub level : Bool
  pub mode : ℕ
  pub pull : ℕ

pub record AdcReadResponse : Type 0 where
  pub pin_id : ℕ
  pub millivolts : ℕ

-- `wlh_coproc_device_info_t`: the arrays as the backend leaves them.
pub record DeviceInfo : Type 0 where
  pub vendor : List ℕ
  pub mcu_model : List ℕ
  pub uid : List ℕ
  pub uid_size : ℕ
  pub board_profile : List ℕ

pub record DeviceInfoResponse : Type 0 where
  pub vendor : List ℕ
  pub mcu_model : List ℕ
  pub uid : List ℕ
  pub board_profile : List ℕ

pub record DiagnosticsPingRequest : Type 0 where
  pub cookie : ℕ
  pub host_time_us : ℕ

pub record DiagnosticsPingResponse : Type 0 where
  pub cookie : ℕ
  pub host_time_us : ℕ
  pub coprocessor_uptime_us : ℕ

pub record UserMessageSendRequest : Type 0 where
  pub endpoint_id : ℕ
  pub message_type : ℕ
  pub flags : ℕ
  pub payload : List ℕ

-- `wlh_coproc_user_message_t`
pub record UserMessage : Type 0 where
  pub endpoint_id : ℕ
  pub message_type : ℕ
  pub flags : ℕ
  pub payload : List ℕ
  pub request_id : ℕ

pub record UserMessageResultEvent : Type 0 where
  pub endpoint_id : ℕ
  pub message_type : ℕ
  pub correlation_id : ℕ
  pub result : ℤ
  pub payload : List ℕ

-- `wlh_coproc_eth_info_t`, which has the fields of `wlh_protocol_v1_EthInfo`; the enumerations are
-- given by their numbers.
pub record EthInfo : Type 0 where
  pub link_state : ℕ
  pub mac_address : List ℕ
  pub speed : ℕ
  pub duplex : ℕ

pub record EthLinkStateChangedEvent : Type 0 where
  pub link_state : ℕ
  pub speed : ℕ
  pub duplex : ℕ

-- `wlh_coproc_bluetooth_info_t`
pub record BluetoothInfo : Type 0 where
  pub public_address : List ℕ
  pub has_public_address : Bool
  pub hci_version : ℕ
  pub manufacturer_id : ℕ
  pub feature_bits : ℕ
  pub max_hci_packet : ℕ

pub record BluetoothControllerInfo : Type 0 where
  pub state : ℕ
  pub public_address : List ℕ
  pub hci_version : ℕ
  pub manufacturer_id : ℕ
  pub feature_bits : ℕ
  pub max_hci_packet : ℕ

pub record BluetoothInitializeRequest : Type 0 where
  pub transport : ℕ
  pub feature_flags : ℕ

pub record BluetoothStateChangedEvent : Type 0 where
  pub state : ℕ
  pub reason : ℕ

pub data Message : Type 0 where
  credit_update : CreditUpdate → Message
  heartbeat : Heartbeat → Message
  hello_response : HelloResponse → Message
  ota_begin_response : OtaBeginResponse → Message
  ota_query_response : OtaQueryResponse → Message
  ota_progress_event : OtaProgressEvent → Message
  io_read_response : IoReadResponse → Message
  adc_read_response : AdcReadResponse → Message
  kv_read_response : List ℕ → Message
  device_info_response : DeviceInfoResponse → Message
  diagnostics_ping_response : DiagnosticsPingResponse → Message
  user_message_result_event : UserMessageResultEvent → Message
  eth_get_info_response : EthInfo → Message
  eth_link_state_changed_event : EthLinkStateChangedEvent → Message
  bluetooth_controller_info : BluetoothControllerInfo → Message
  bluetooth_state_changed_event : BluetoothStateChangedEvent → Message
