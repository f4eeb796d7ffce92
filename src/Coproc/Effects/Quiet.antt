-- ===== src/Coproc/Effects/Quiet.antt =====
-- What the coprocessor's effects leave alone, and what they do with buffers: every one that is
-- allocated is freed, or handed over with a frame or a job that is accepted.
use wl_hosted_core.Prelude.{ℕ, zero, ◌+◌, ◌≡◌, arith, Bool, List, [], ◌∷◌}
use wl_hosted_core.Prelude.Word.{ℤ, pos}
use wl_hosted_core.Coproc.Types.{
  CoprocState, Job, OtaCall, BluetoothCall, Call, Trace, Platform, Coproc,
}
use wl_hosted_core.Coproc.Effects.{now_ms, enqueue_or_free, set_state}

-- The calls of the OTA backend with its answers, the latest first.
abbrev pub ota_log : Trace → List (OtaCall × Bool)
ota_log [] = []
ota_log (Call.ota call accepted ∷ t) = (call, accepted) ∷ ota_log t
ota_log (_ ∷ t) = ota_log t

-- So too of the Bluetooth backend's operations.
abbrev pub bluetooth_log : Trace → List (BluetoothCall × ℤ)
bluetooth_log [] = []
bluetooth_log (Call.bluetooth call status ∷ t) = (call, status) ∷ bluetooth_log t
bluetooth_log (_ ∷ t) = bluetooth_log t

-- The packets that the Bluetooth controller has taken.
abbrev pub hci_log : Trace → List (ℕ × List ℕ)
hci_log [] = []
hci_log (Call.hci_send h4_type packet (pos zero) ∷ t) = (h4_type, packet) ∷ hci_log t
hci_log (_ ∷ t) = hci_log t

abbrev pub acquires : Call → ℕ
acquires (Call.alloc size) = 1
acquires _ = 0

-- A job without a payload holds no buffer.
abbrev pub job_releases : Job → ℕ
job_releases Job.transport_failed = 0
job_releases Job.ethernet_rx_complete = 0
job_releases Job.stop = 0
job_releases _ = 1

abbrev pub releases : Call → ℕ
releases Call.free = 1
releases (Call.submitted frame) = 1
releases (Call.enqueued job) = job_releases job
releases _ = 0

abbrev pub acquired : Trace → ℕ
acquired [] = 0
acquired (call ∷ t) = acquires call + acquired t

abbrev pub released : Trace → ℕ
released [] = 0
released (call ∷ t) = releases call + released t

-- From `c` to `c'` as many buffers were freed or handed over as were acquired, and `debt` more.
abbrev pub Balanced : ℕ → Coproc → Coproc → Type 0
Balanced debt c c' =
    acquired c'.trace + released c.trace + debt ≡ acquired c.trace + released c'.trace

-- The fields that sending does not change; neither the OTA nor the Bluetooth backend is called, and
-- buffers balance.
pub record Quiet (debt : ℕ) (c c' : Coproc) : Type 0 where
  pub config : c'.config ≡ c.config
  pub session_id : c'.session_id ≡ c.session_id
  pub next_session_id : c'.next_session_id ≡ c.next_session_id
  pub rx_sequence : c'.rx_sequence ≡ c.rx_sequence
  pub rx_sequence_valid : c'.rx_sequence_valid ≡ c.rx_sequence_valid
  pub last_heartbeat_ms : c'.last_heartbeat_ms ≡ c.last_heartbeat_ms
  pub pending_credit : c'.ethernet_rx_pending_credit ≡ c.ethernet_rx_pending_credit
  pub ota : c'.ota ≡ c.ota
  pub log : ota_log c'.trace ≡ ota_log c.trace
  pub bluetooth_state : c'.bluetooth_state ≡ c.bluetooth_state
  pub bluetooth_pending : c'.bluetooth_pending ≡ c.bluetooth_pending
  pub bluetooth_hci_stopped : c'.bluetooth_hci_stopped ≡ c.bluetooth_hci_stopped
  pub bluetooth_calls : bluetooth_log c'.trace ≡ bluetooth_log c.trace
  pub hci_packets : hci_log c'.trace ≡ hci_log c.trace
  pub balanced : Balanced debt c c'

pub Quiet-refl : (c : Coproc) → Quiet 0 c c
Quiet-refl c = ground arith

pub Quiet-trans : (m n k : ℕ) (a b c : Coproc) → Quiet m a b → Quiet n b c → k ≡ m + n → Quiet k a c
Quiet-trans m n k a b c x y e = ground arith

module _ (c : Coproc) where
  pub set_state-Quiet : (s : CoprocState) → Quiet 0 c (set_state c s)
  unfolding set_state
  set_state-Quiet s = ground arith

module _ (p : Platform) (c : Coproc) where
  pub now_ms-Quiet : Quiet 0 c (now_ms p c).1
  unfolding now_ms
  now_ms-Quiet = ground arith

  pub enqueue_or_free-Quiet :
      (job : Job) → job_releases job ≡ 1 → Quiet 1 c (enqueue_or_free p c job).1
  unfolding enqueue_or_free
  enqueue_or_free-Quiet job holds = ground arith
