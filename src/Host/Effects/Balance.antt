-- ===== src/Host/Effects/Balance.antt =====
-- Buffers: every one that is allocated is freed, or handed over with a frame that the transport
-- accepts or a task that the executor accepts, which free it when they are done.
use wl_hosted_core.Prelude.{ℕ, ◌+◌, ◌≡◌, arith, List, [], ◌∷◌}
use wl_hosted_core.Prelude.Word.{ℤ}
use wl_hosted_core.Host.Types.{
  HostResult, HostState, EventKind, EventPayload, raw, Completion, Call, Trace, Platform, Host,
}
use wl_hosted_core.Host.Effects.{
  now_ms, dispatch_event, dispatch_completion, enter_state, set_state,
}

abbrev pub acquires : Call → ℕ
acquires (Call.alloc size) = 1
acquires _ = 0

abbrev pub releases : Call → ℕ
releases Call.free = 1
releases (Call.submitted frame) = 1
releases (Call.posted task) = 1
releases _ = 0

abbrev pub acquired : Trace → ℕ
acquired [] = 0
acquired (c ∷ t) = acquires c + acquired t

abbrev pub released : Trace → ℕ
released [] = 0
released (c ∷ t) = releases c + released t

-- Between two states as many buffers were acquired as were freed or handed over.
abbrev pub Balanced : Host → Host → Type 0
Balanced h h' = acquired h'.trace + released h.trace ≡ acquired h.trace + released h'.trace

module _ (p : Platform) (h : Host) where
  pub now_ms-Balanced : Balanced h (now_ms p h).1
  unfolding now_ms
  now_ms-Balanced = omega arith

  pub dispatch_event-Balanced :
      (kind : EventKind) (service_id method_id : ℕ) (payload : EventPayload)
      → Balanced h (dispatch_event p h kind service_id method_id payload).1
  unfolding dispatch_event
  dispatch_event-Balanced kind service_id method_id payload = ground arith

  pub dispatch_completion-Balanced :
      (c : Completion) (r : HostResult) (domain : ℕ) (code : ℤ) (payload : List ℕ)
      → Balanced h (dispatch_completion p h c r domain code payload)
  unfolding dispatch_completion
  dispatch_completion-Balanced c r domain code payload = ground arith

module _ (p : Platform) (h : Host) where
  pub set_state-Balanced : (s : HostState) → Balanced h (set_state p h s)
  unfolding set_state
  set_state-Balanced s =
      ground
        (arith, dispatch_event-Balanced p (enter_state h s) EventKind.state_changed 0 0 (raw []))
