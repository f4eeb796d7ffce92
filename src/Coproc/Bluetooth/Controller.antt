-- ===== src/Coproc/Bluetooth/Controller.antt =====
-- The controller's life as an automaton of its own.
use wl_hosted_core.Prelude.{
  ℕ, ◌≤◌, ◌≡◌, ◌≢◌, ◌⊎◌, arith, Bool, true, false, List, ◌∷◌, ◌==◌, ◌!=◌, ◌&&◌, if◌then◌else◌,
}
use wl_hosted_core.Prelude.Word.{ℤ}
use wl_hosted_core.Protocol.Ids.Method
use wl_hosted_core.Protocol.Rpc.{RpcEnvelope, is_status_ok}
use wl_hosted_core.Coproc.Types.Messages.{BluetoothInfo}
use wl_hosted_core.Coproc.Types.{BluetoothCall, Coproc, PendingOperation, no_operation}
use wl_hosted_core.Coproc.Effects.Quiet.{bluetooth_log}
use wl_hosted_core.Coproc.Bluetooth.{bt_unspecified, bt_disabled, bt_enabled, bt_error}

-- What the automaton sees: the state, the operation that waits, and the calls of the backend with its
-- answers, the latest first.
pub record Controller : Type 0 where
  pub state : ℕ
  pub session_id : ℕ
  pub pending : PendingOperation
  pub calls : List (BluetoothCall × ℤ)

abbrev pub controller : Coproc → Controller
controller c = record {
  state = c.bluetooth_state;
  session_id = c.session_id;
  pending = c.bluetooth_pending;
  calls = bluetooth_log c.trace;
}

-- What happens to the controller's core: a request, or a report that the worker takes from its queue.
pub data Operation : Type 0 where
  requested : RpcEnvelope → List ℕ → Operation
  completed : ℕ → ℤ → Operation
  informed : ℕ → ℤ → BluetoothInfo → Operation
  broken : ℕ → Operation

-- A report on the operation that waits, in the session in which it began.
abbrev pub is_awaited : Controller → ℕ → Bool
is_awaited v operation_id =
    (v.pending).active
    && operation_id == (v.pending).operation_id
    && (v.pending).session_id == v.session_id

-- What must not be passed over: such a report of the right kind, or a failure.
abbrev pub is_due : Controller → Operation → Bool
is_due v (Operation.requested request payload) = false
is_due v (Operation.completed operation_id status) =
    is_awaited v operation_id && (v.pending).method_id != Method.bluetooth_get_info
is_due v (Operation.informed operation_id status info) =
    is_awaited v operation_id && (v.pending).method_id == Method.bluetooth_get_info
is_due v (Operation.broken reason) = true

-- In which state which operation may begin, and the method that waits for it.
pub data Allowed (state : ℕ) : ℕ → BluetoothCall → Type 0 where
  initialize :
      (id flags : ℕ)
      → state ≡ bt_unspecified
      → Allowed state Method.bluetooth_initialize (BluetoothCall.initialize id flags)
  enable :
      (id flags : ℕ)
      → state ≡ bt_disabled
      → Allowed state Method.bluetooth_enable (BluetoothCall.enable id flags)
  disable :
      (id : ℕ)
      → (state ≡ bt_enabled) ⊎ (state ≡ bt_error)
      → Allowed state Method.bluetooth_disable (BluetoothCall.disable id)
  deinitialize :
      (id : ℕ) (release_memory : Bool)
      → state ≢ bt_unspecified
      → Allowed state Method.bluetooth_deinitialize (BluetoothCall.deinitialize id release_memory)
  get_info : (id : ℕ) → Allowed state Method.bluetooth_get_info (BluetoothCall.get_info id)

-- Where a finished operation leads.
abbrev pub next_state : ℕ → ℕ
next_state method_id =
    if method_id == Method.bluetooth_initialize
    then bt_disabled
    else if method_id == Method.bluetooth_enable
    then bt_enabled
    else if method_id == Method.bluetooth_disable
    then bt_disabled
    else bt_unspecified

-- The number that the backend is told.
abbrev pub number_of : BluetoothCall → ℕ
number_of (BluetoothCall.initialize id flags) = id
number_of (BluetoothCall.enable id flags) = id
number_of (BluetoothCall.disable id) = id
number_of (BluetoothCall.deinitialize id release_memory) = id
number_of (BluetoothCall.get_info id) = id

-- One operation waits at a time, and only what is allowed begins. The state moves when the backend
-- reports that the operation that waits has succeeded, or to the error state.
pub data Step (v : Controller) : Operation → Controller → Type 0 where
  stays : {o : Operation} → is_due v o ≡ false → Step v o v
  begins :
      {request : RpcEnvelope} {payload : List ℕ} {call : BluetoothCall} (status : ℤ)
      → (v.pending).active ≡ false
      → Allowed v.state request.method_id call
      → is_status_ok status ≡ true
      → Step v (Operation.requested request payload) (record v {
        pending = record {
          active = true;
          operation_id = number_of call;
          session_id = v.session_id;
          request_id = request.request_id;
          method_id = request.method_id;
        };
        calls = (call, status) ∷ v.calls;
      })
  is_refused :
      {request : RpcEnvelope} {payload : List ℕ} {call : BluetoothCall} (status : ℤ)
      → (v.pending).active ≡ false
      → Allowed v.state request.method_id call
      → is_status_ok status ≡ false
      → Step v
          (Operation.requested request payload)
          (record v { pending = no_operation; calls = (call, status) ∷ v.calls })
  succeeds :
      {operation_id : ℕ} {status : ℤ}
      → is_due v (Operation.completed operation_id status) ≡ true
      → is_status_ok status ≡ true
      → Step v
          (Operation.completed operation_id status)
          (record v { state = next_state (v.pending).method_id; pending = no_operation })
  fails :
      {operation_id : ℕ} {status : ℤ}
      → is_due v (Operation.completed operation_id status) ≡ true
      → is_status_ok status ≡ false
      → Step v (Operation.completed operation_id status) (record v { pending = no_operation })
  tells :
      {operation_id : ℕ} {status : ℤ} {info : BluetoothInfo}
      → is_due v (Operation.informed operation_id status info) ≡ true
      → Step v (Operation.informed operation_id status info) (record v { pending = no_operation })
  breaks : {reason : ℕ} → Step v (Operation.broken reason) (record v { state = bt_error })

-- There are four states.
abbrev pub IsState : ℕ → Type 0
IsState state = state ≤ 3

pub Step-IsState :
    {v : Controller} {o : Operation} {w : Controller}
    → Step v o w
    → IsState v.state
    → IsState w.state
Step-IsState (stays idle) h = h
Step-IsState (begins status free allowed good) h = h
Step-IsState (is_refused status free allowed bad) h = h
Step-IsState (succeeds due good) h = ground arith
Step-IsState (fails due bad) h = h
Step-IsState (tells due) h = h
Step-IsState breaks h = omega arith
