-- ===== src/Coproc/Ethernet/Price.antt =====
-- What the worker does with an Ethernet job: a frame costs one unit of credit for each record in it.
use wl_hosted_core.Prelude.{
  ℕ, ◌+◌, ◌-◌, ◌≡◌, refl, ap, subst, All, Option, none, ◌||◌, ◌==◌, ltb, if_cases, ◌∙◌, arith, Bool,
  true, false, not, ◌&&◌, List, [], ◌∷◌, some, ◌++◌, length, update, if◌then◌else◌,
}
use wl_hosted_core.Prelude.Word.{u32}
use wl_hosted_core.Protocol.Result.{Wire, accept, reject, bytes}
use wl_hosted_core.Protocol.Ids.{frame_header_size}
use wl_hosted_core.Protocol.Frame.{FrameHeader, frame_header_init, frame_encode}
use wl_hosted_core.Coproc.Types.{CoprocResult, Job, Call, Trace, Platform, Coproc}
use wl_hosted_core.Coproc.Effects.{is_ok, set_state, alloc_buffer, free_buffer}
use wl_hosted_core.Coproc.Send.{
  next_header, is_reserved, submit_tx, submit_frame, charge, send_payload_units,
}
use wl_hosted_core.Coproc.Send.Account.{Paid, Unpaid, send_payload_units-Account}
use wl_hosted_core.Coproc.Ethernet.Transmit.{
  DataJob, Aggregated, is_ethernet_on, give_slot, aggregate_ethernet_jobs, transmit_ethernet,
}
use wl_hosted_core.Coproc.Ethernet.Aggregate.{
  slots_given, put_back, all_data, aggregate_ethernet_jobs-IsAggregate,
}

-- The transport has taken a frame on a channel with a payload, as the last it was given.
abbrev pub last_submitted : Trace → Option (List ℕ)
last_submitted [] = none
last_submitted (Call.submitted frame ∷ t) = some frame
last_submitted (_ ∷ t) = last_submitted t

pub record Carries (channel : ℕ) (payload : List ℕ) (t : Trace) : Type 0 where
  pub header : FrameHeader
  pub frame : List ℕ
  pub on_channel : header.channel ≡ channel
  pub encoded :
      frame_encode (some header) (bytes payload) (frame_header_size + length payload) ≡ accept frame
  pub submitted : last_submitted t ≡ some frame

carried_through :
    {channel channel1 : ℕ} {payload payload1 : List ℕ} {t t1 : Trace}
    → channel ≡ channel1
    → payload ≡ payload1
    → last_submitted t1 ≡ last_submitted t
    → Carries channel payload t
    → Carries channel1 payload1 t1
carried_through {channel} {payload = payload} {payload1} {t1 = t1} channels payloads same carried =
    let moved : Carries channel payload t1 = record {
      header = carried.header;
      frame = carried.frame;
      on_channel = carried.on_channel;
      encoded = carried.encoded;
      submitted = same ∙ carried.submitted;
    } in
    subst (λ (ch : ℕ). Carries ch payload1 t1) channels
      (subst (λ (bs : List ℕ). Carries channel bs t1) payloads moved)

-- The jobs that were sent with the first one, and what all of them cost.
pub record IsTransmitted (c : Coproc) (channel : ℕ) (content : List ℕ) (waiting : List Job)
    (out : CoprocResult × Aggregated) : Type 0 where
  pub merged : List Job
  pub in_order : waiting ≡ merged ++ put_back (out.1).deferred (out.1).left
  pub on_channel : All (λ j. is_ethernet_on channel j ≡ true) merged
  pub sent :
      is_ok out.0 ≡ true → Carries channel (content ++ all_data merged) ((out.1).coproc).trace
  pub slots :
      slots_given ((out.1).coproc).trace + (if is_ok out.0 then 1 else 0)
      ≡ slots_given c.trace + length merged + 1
  pub credit : ((out.1).coproc).tx_credit ≡ (
      if is_ok out.0 && not (is_reserved channel)
      then update c.tx_credit channel (c.tx_credit channel - u32 (1 + length merged))
      else c.tx_credit)

-- The credit that is left, as a function of what was sent.
abbrev rest_of : Bool → (ℕ → ℕ) → ℕ → ℕ → ℕ → ℕ
rest_of sent credit channel units =
    if sent && not (is_reserved channel)
    then update credit channel (credit channel - units)
    else credit

rest_of-sent :
    (credit : ℕ → ℕ) (channel units : ℕ) (reserved : Bool)
    → (if reserved then credit else update credit channel (credit channel - units))
      ≡ (if not reserved then update credit channel (credit channel - units) else credit)
rest_of-sent credit channel units true = refl
rest_of-sent credit channel units false = refl

rest_of_lem :
    (c d : Coproc) (channel units : ℕ) (sent : Bool)
    → (if sent then Paid c d channel units else Unpaid c d)
    → d.tx_credit ≡ rest_of sent c.tx_credit channel units
rest_of_lem c d channel units true paid =
    paid.1 ∙ rest_of-sent c.tx_credit channel units (is_reserved channel)
rest_of_lem c d channel units false unpaid = unpaid.1

credit-give_slot : (b : Bool) (c : Coproc) → (if b then give_slot c else c).tx_credit ≡ c.tx_credit
credit-give_slot true c = refl
credit-give_slot false c = refl

module _ (p : Platform) where
  submit_frame_slots :
      (c : Coproc) (channel units : ℕ) (w : Wire (List ℕ))
      → slots_given (submit_frame p c channel units w).1.trace ≡ slots_given c.trace
  unfolding submit_frame submit_tx charge free_buffer
  submit_frame_slots c channel units (reject code) = refl
  submit_frame_slots c channel units (accept frame) = ground arith

  send_payload_units_slots :
      (c : Coproc) (channel : ℕ) (payload : List ℕ) (units : ℕ)
      → slots_given (send_payload_units p c channel payload units).1.trace ≡ slots_given c.trace
  unfolding send_payload_units set_state alloc_buffer
  send_payload_units_slots c channel payload units = ground (
    arith,
    submit_frame_slots (alloc_buffer p c (frame_header_size + length payload)).1 channel units (
        frame_encode
          (some (next_header (alloc_buffer p c (frame_header_size + length payload)).1 channel))
          (bytes payload) (frame_header_size + length payload)),
  )

  submit_frame-submitted :
      (c : Coproc) (channel units : ℕ) (w : Wire (List ℕ))
      → is_ok (submit_frame p c channel units w).0 ≡ true
      → (frame : List ℕ) × (w ≡ accept frame)
        × (last_submitted (submit_frame p c channel units w).1.trace ≡ some frame)
  unfolding submit_frame submit_tx charge free_buffer
  submit_frame-submitted c channel units (reject code) ok = cc
  submit_frame-submitted c channel units (accept frame) ok = (frame, refl, ground arith)

  send_payload_units-Carries :
      (c : Coproc) (channel : ℕ) (payload : List ℕ) (units : ℕ)
      → is_ok (send_payload_units p c channel payload units).0 ≡ true
      → Carries channel payload (send_payload_units p c channel payload units).1.trace
  unfolding send_payload_units next_header frame_header_init
  send_payload_units-Carries c channel payload units =
      let size = frame_header_size + length payload in
      let (allocated, c1) = alloc_buffer p c size in
      let header = next_header c1 channel in
      let w = frame_encode (some header) (bytes payload) size in
      let Goal =
        λ (out : CoprocResult × Coproc). is_ok out.0 ≡ true → Carries channel payload out.1.trace in
      if_cases Goal (ltb (c.config).max_frame_size size || units == 0) (λ _ ok. cc)
        (λ _.
          if_cases Goal (not (is_reserved channel) && ltb (c.tx_credit channel) units) (λ _ ok. cc)
            (λ _.
              if_cases Goal allocated
                (λ _ ok.
                  let (frame, made, submitted) = submit_frame-submitted c1 channel units w ok in
                  record {
                    header = header;
                    frame = frame;
                    on_channel = refl;
                    encoded = made;
                    submitted = submitted;
                  })
                (λ _ ok. cc)))

  last_submitted-given :
      (b : Bool) (c : Coproc)
      → last_submitted (if b then give_slot c else c).trace ≡ last_submitted c.trace
  last_submitted-given true c = refl
  last_submitted-given false c = refl

  -- With the jobs that the queue hands out meanwhile: the first so many of them are sent together
  -- with the worker's own, and none of the others is lost or overtaken. If the frame is sent it costs
  -- one unit of credit, modulo 2 ^ 32, for each of these jobs, unless the channel is the link's, and
  -- all of their slots but one are given back; if it is not, it costs nothing, and all are. The
  -- frame that is sent carries on the channel the worker's data and behind it that of these jobs.
  pub transmit_ethernet-IsTransmitted :
      (size_max : ℕ) (c : Coproc) (channel : ℕ) (content : List ℕ) (waiting : List Job)
      → IsTransmitted c channel content waiting
          (transmit_ethernet p size_max c channel content waiting)
  unfolding transmit_ethernet free_buffer
  transmit_ethernet-IsTransmitted size_max c channel content waiting =
      let d : DataJob = record {
        channel = channel;
        records = content;
        capacity = length content;
      } in
      let all = aggregate_ethernet_jobs-IsAggregate p size_max c d waiting in
      let a = aggregate_ethernet_jobs p size_max c d waiting in
      let (result, c1) =
        send_payload_units p a.coproc (a.job).channel (a.job).records a.credit_units in
      let paid =
        send_payload_units-Account p a.coproc (a.job).channel (a.job).records a.credit_units in
      let same = send_payload_units_slots a.coproc (a.job).channel (a.job).records a.credit_units in
      record {
        merged = all.merged;
        in_order = all.in_order;
        on_channel = all.on_channel;
        sent = λ ok.
            carried_through all.channel all.records (last_submitted-given (not (is_ok result)) c1) (
              send_payload_units-Carries a.coproc (a.job).channel (a.job).records a.credit_units
                ok);
        slots = ground (arith, all.slots, same);
        credit =
            credit-give_slot (not (is_ok result)) c1
            ∙ rest_of_lem a.coproc c1 (a.job).channel a.credit_units (is_ok result) paid
            ∙ ap (λ t. rest_of (is_ok result) t (a.job).channel a.credit_units) all.credit
            ∙ ap (λ ch. rest_of (is_ok result) c.tx_credit ch a.credit_units) all.channel
            ∙ ap (rest_of (is_ok result) c.tx_credit channel) all.price;
      }
