-- ===== src/Coproc/Bluetooth/History.antt =====
-- The core's Bluetooth operations in any order, against the controller's automaton.
use wl_hosted_core.Prelude.{List, [], ◌∷◌}
use wl_hosted_core.Coproc.Types.{Platform, Coproc}
use wl_hosted_core.Coproc.Bluetooth.{
  bluetooth_enter_error, handle_bluetooth, bluetooth_operation_completed, bluetooth_info_completed,
}
use wl_hosted_core.Coproc.Bluetooth.Controller.{
  Controller, Operation, controller, Step, IsState, Step-IsState,
}
use wl_hosted_core.Coproc.Bluetooth.Lifecycle.{
  handle_bluetooth-Drives, completed-Drives, info_completed-Drives, enter_error-Drives,
}

-- Each operation does a step, from the state that the one before has led to.
abbrev pub Steps : Controller → List Operation → List Controller → Type 0
Steps v [] [] = Unit
Steps v (o ∷ os) (w ∷ ws) = Step v o w × Steps w os ws
Steps v os ws = ⊥

module _ (p : Platform) where
  abbrev pub perform : Coproc → Operation → Coproc
  perform c (Operation.requested request payload) = (handle_bluetooth p c request payload).1
  perform c (Operation.completed operation_id status) =
      bluetooth_operation_completed p c operation_id status
  perform c (Operation.informed operation_id status info) =
      bluetooth_info_completed p c operation_id status info
  perform c (Operation.broken reason) = bluetooth_enter_error p c reason

  perform-Step :
      (c : Coproc) (operation : Operation)
      → IsState c.bluetooth_state
      → Step (controller c) operation (controller (perform c operation))
  perform-Step c (Operation.requested request payload) known =
      handle_bluetooth-Drives p c request payload known
  perform-Step c (Operation.completed operation_id status) known =
      completed-Drives p c operation_id status
  perform-Step c (Operation.informed operation_id status info) known =
      info_completed-Drives p c operation_id status info
  perform-Step c (Operation.broken reason) known = enter_error-Drives p c reason

  -- What the automaton sees behind each operation.
  abbrev pub history : Coproc → List Operation → List Controller
  history c [] = []
  history c (o ∷ os) = controller (perform c o) ∷ history (perform c o) os

  -- From one of the four states on, whatever requests, completions and failures come in whatever
  -- order, each does the step of the automaton that its label allows. A request begins an operation
  -- that its state allows, while no other waits, with the backend's number for it, or changes
  -- nothing. The state moves on a report that the operation which waits, by number, session
  -- and kind, has succeeded, to the state that this operation leads to, and on a failure of the
  -- controller into the error state; such a report always ends the wait, and any other changes
  -- nothing.
  pub history-Steps :
      (c : Coproc) (operations : List Operation)
      → IsState c.bluetooth_state
      → Steps (controller c) operations (history c operations)
  history-Steps c [] known = _
  history-Steps c (o ∷ os) known =
      let step = perform-Step c o known in
      (step, history-Steps (perform c o) os (Step-IsState step known))
