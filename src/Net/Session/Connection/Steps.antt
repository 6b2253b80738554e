-- ===== src/Net/Session/Connection/Steps.antt =====
-- What the events of the send operations keep, and what goes out by them.
use smpp.Common.{
  ℕ, ◌<◌, ◌^◌, ◌≡◌, refl, sym, subst, inl, inr, arith, List, [], ◌∷◌, ◌++◌, All-remove, append-nil,
}
use smpp.Common.{Bool, true}
use smpp.Exceptions.{Bytes}
use smpp.Net.PduVariant.{PduVariant}
use smpp.Net.PduVariant.Dispatch.{variant_body}
use smpp.Net.Session.{
  ErrorCode, no_error, operation_aborted, system_error, serialization_failed, enquire_link_timeout,
  unbinded,
}
use smpp.Net.Session.Send.{
  Write, Sender, header_space, written, write_end, IsSerializer, IsKind, IsOp,
}
use smpp.Net.Session.Send.Lock.{woken-IsSender, waiting-IsSender, IsSender, Owned-ends}
use smpp.Net.Session.Send.Handlers.{resume-IsSender, write_end-IsSender}
use smpp.Net.Session.Stream.{Delivery}
use smpp.Net.Session.Stream.Sent.{Sent, silent}
use smpp.Net.Session.Connection.{
  Message, request_of, response_of, command_of, serialize_variant, kind_of, IsMessage, IsSendable,
  received_as, went_out, call, resumes, cancels, ends,
}
use smpp.Net.Session.Connection.Frames.{serialize_variant-bytes, Sent-append}
use smpp.Net.Session.Connection.{Events, resumes, cancels, ends, frames_out}
use smpp.Net.Session.Connection.Frames.{IsOwn-IsU32}
use smpp.Net.Session.Connection.Invariant.{
  IsDelivered, IsCall, IsTalk, resume-IsTalk, finish-IsTalk, woken-IsTalk, waiting-IsTalk,
}

IsSendable-IsSerializer :
    (total : ℕ) (v : PduVariant)
    → total < 2 ^ 32
    → IsSendable total v
    → IsSerializer (serialize_variant v)
IsSendable-IsSerializer total v small (inl (valid, fits)) =
    inl (variant_body v, serialize_variant-bytes v header_space valid, omega arith)
IsSendable-IsSerializer total v small (inr thrown) = inr thrown

IsMessage-IsKind :
    (total : ℕ) (leaving : Bool) (m : Message)
    → total < 2 ^ 32
    → IsMessage total leaving m
    → IsKind (kind_of m)
IsMessage-IsKind total leaving (request_of v) small (q, u, h) =
    (u, IsSendable-IsSerializer total v small h)
IsMessage-IsKind total leaving (response_of v number status) small (q, u, h, n, st) =
    (u, IsSendable-IsSerializer total v small h, n, st)
IsMessage-IsKind total leaving (command_of command_id number) small (own, n, fits) =
    (IsOwn-IsU32 leaving command_id own, n)

module _ (message : ℕ → Message) (total : ℕ) (leaving : Bool) (small : total < 2 ^ 32) where
  pub call-IsOp : (id : ℕ) → IsMessage total leaving (message id) → IsOp (call message id)
  call-IsOp id h = IsMessage-IsKind total leaving (message id) small h

  frames_out-Sent :
      (ec : ErrorCode) (m : Message) (number : ℕ) (frame : Bytes)
      → Sent total leaving (frame ∷ []) (received_as m number)
      → Sent total leaving (frames_out ec frame) (went_out ec m number)
  frames_out-Sent no_error m number frame f = f
  frames_out-Sent operation_aborted m number frame f = silent
  frames_out-Sent (system_error n) m number frame f = silent
  frames_out-Sent serialization_failed m number frame f = silent
  frames_out-Sent enquire_link_timeout m number frame f = silent
  frames_out-Sent unbinded m number frame f = silent

  written_lem :
      (ec : ErrorCode) (frame : Bytes) (wire : List Bytes)
      → written ec frame wire ≡ wire ++ frames_out ec frame
  written_lem no_error frame wire = refl
  written_lem operation_aborted frame wire = sym (append-nil wire)
  written_lem (system_error n) frame wire = sym (append-nil wire)
  written_lem serialization_failed frame wire = sym (append-nil wire)
  written_lem enquire_link_timeout frame wire = sym (append-nil wire)
  written_lem unbinded frame wire = sym (append-nil wire)

  -- The buffer is the frame of the write that ends.
  framed :
      (w : Write) (before behind : List Write) (s : Sender) (ds : List Delivery)
      → s.writing ≡ before ++ (w ∷ behind)
      → IsSender s
      → IsTalk message total leaving ds s
      → Sent total leaving (s.send_buf ∷ []) (received_as (message w.op.id) w.sequence_number)
  framed w before behind s ds e v t =
      subst
        (λ frame. Sent total leaving (frame ∷ []) (received_as (message w.op.id) w.sequence_number))
        (sym ((Owned-ends w before behind s.writing s.send_buf e v.owned).1.0))
        ((All-remove (IsDelivered message total leaving) before behind w s.writing e t.writes).0)

  write_end-IsTalk :
      (w : Write) (before behind : List Write) (ec : ErrorCode) (cancelled : Bool) (s : Sender)
      (ds : List Delivery)
      → s.writing ≡ before ++ (w ∷ behind)
      → IsSender s
      → IsTalk message total leaving ds s
      → IsTalk message total leaving
          (ds ++ went_out ec (message w.op.id) w.sequence_number)
          (write_end w ec cancelled (record s { writing = before ++ behind }))
  unfolding write_end
  write_end-IsTalk w before behind ec cancelled s ds e v t =
      finish-IsTalk message total leaving small _ w w.op.kind ec cancelled _ (record {
        waiting_calls = t.waiting_calls;
        woken_calls = t.woken_calls;
        writes =
            (All-remove (IsDelivered message total leaving) before behind w s.writing e t.writes).1;
        sent =
            subst
              (λ wire.
                Sent total leaving wire (ds ++ went_out ec (message w.op.id) w.sequence_number))
              (sym (written_lem ec s.send_buf s.wire))
              (Sent-append t.sent (
                frames_out-Sent ec (message w.op.id) w.sequence_number s.send_buf
                  (framed w before behind s ds e v t)));
        numbers = t.numbers;
      })

  IsTalk-append_nil :
      (ds : List Delivery) (s : Sender)
      → IsTalk message total leaving ds s
      → IsTalk message total leaving (ds ++ []) s
  IsTalk-append_nil ds s = subst (λ xs. IsTalk message total leaving xs s) (sym (append-nil ds))

  -- What every event of the send operations keeps.
  pub Events-IsTalk :
      {s t : Sender} {out ds : List Delivery} {frames : List Bytes}
      → Events message s out frames t
      → IsSender s
      → IsTalk message total leaving ds s
      → IsSender t × IsTalk message total leaving (ds ++ out) t × Sent total leaving frames out
  Events-IsTalk {s} {ds = ds} (resumes op before behind cancelled e) v t =
      let (o, ops) = All-remove IsOp before behind op s.woken e v.woken_ops in
      let (c, cs) =
        All-remove (IsCall message total leaving) before behind op s.woken e t.woken_calls in
      (
        resume-IsSender op operation_aborted cancelled _ o (woken-IsSender _ s ops v),
        IsTalk-append_nil ds _ (
            resume-IsTalk message total leaving small ds op operation_aborted cancelled _ c
              (woken-IsTalk message total leaving ds _ s cs t)),
        silent,
      )
  Events-IsTalk {s} {ds = ds} (cancels op before behind e) v t =
      let (o, ops) = All-remove IsOp before behind op s.waiting e v.waiting_ops in
      let (c, cs) =
        All-remove (IsCall message total leaving) before behind op s.waiting e t.waiting_calls in
      (
        resume-IsSender op operation_aborted true _ o (waiting-IsSender _ s ops v),
        IsTalk-append_nil ds _ (
            resume-IsTalk message total leaving small ds op operation_aborted true _ c
              (waiting-IsTalk message total leaving ds _ s cs t)),
        silent,
      )
  Events-IsTalk {s} {ds = ds} (ends w before behind ec cancelled e) v t = (
    write_end-IsSender w before behind ec cancelled s e v,
    write_end-IsTalk w before behind ec cancelled s ds e v t,
    frames_out-Sent ec (message w.op.id) w.sequence_number s.send_buf
        (framed w before behind s ds e v t),
  )
