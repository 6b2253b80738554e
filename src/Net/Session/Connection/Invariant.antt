-- ===== src/Net/Session/Connection/Invariant.antt =====
-- What went out, and the write that is under way, are frames that the other session delivers.
use smpp.Common.{
  ℕ, ◌<◌, ◌^◌, ◌≡◌, refl, ap, sym, subst, inl, inr, arith, List, [], ◌∷◌, All, All-append,
}
use smpp.Common.{Bool, not, ◌&&◌, ◌||◌, Bool-cases}
use smpp.Exceptions.{Bytes, ok}
use smpp.Header.{rok}
use smpp.Header.RoundTrip.{IsU32}
use smpp.Net.PduVariant.{PduVariant}
use smpp.Net.PduVariant.Dispatch.{variant_id}
use smpp.Net.Session.{ErrorCode, serialization_failed, enquire_link_timeout, is_aborted}
use smpp.Net.Session.Send.{
  Kind, command, request, response, SendOp, Write, Completion, Sender, is_empty, header_space,
  complete, start_write, send_serialized, numbered, proceed, attempt, resume, cancel_one, release,
  finish,
}
use smpp.Net.Session.Send.Lock.{numbered-IsU32}
use smpp.Net.Session.Loopback.{IsOutgoing}
use smpp.Net.Session.Stream.{Delivery}
use smpp.Net.Session.Stream.Sent.{Sent}
use smpp.Net.Session.Connection.{
  Message, request_of, response_of, command_of, serialize_variant, kind_of, IsMessage, IsSendable,
  received_as, call,
}
use smpp.Net.Session.Connection.Frames.{serialize_variant-bytes, pdu_frame-Sent, command-Sent}

module _ (message : ℕ → Message) (total : ℕ) (leaving : Bool) where
  -- An operation that sends the message of its id.
  abbrev pub IsCall : SendOp → Type 0
  IsCall op = (op ≡ call message op.id) × IsMessage total leaving (message op.id)

  -- A write of a frame that is delivered as its message.
  abbrev pub IsDelivered : Write → Type 0
  IsDelivered w =
      Sent total leaving (w.frame ∷ []) (received_as (message w.op.id) w.sequence_number)

  pub record IsTalk (ds : List Delivery) (s : Sender) : Type 0 where
    pub waiting_calls : All IsCall s.waiting
    pub woken_calls : All IsCall s.woken
    pub writes : All IsDelivered s.writing
    pub sent : Sent total leaving s.wire ds
    pub numbers : IsU32 s.sequence_number

module _ (message : ℕ → Message) (total : ℕ) (leaving : Bool) (ds : List Delivery) where
  -- Whatever does not touch these members.
  IsTalk-like :
      (s t : Sender)
      → s.waiting ≡ t.waiting
      → s.woken ≡ t.woken
      → s.writing ≡ t.writing
      → s.wire ≡ t.wire
      → IsU32 t.sequence_number
      → IsTalk message total leaving ds s
      → IsTalk message total leaving ds t
  IsTalk-like s t a b c d n v = record {
    waiting_calls = subst (All (IsCall message total leaving)) a v.waiting_calls;
    woken_calls = subst (All (IsCall message total leaving)) b v.woken_calls;
    writes = subst (All (IsDelivered message total leaving)) c v.writes;
    sent = subst (λ wire. Sent total leaving wire ds) d v.sent;
    numbers = n;
  }

  complete-IsTalk :
      (id : ℕ) (ec : ErrorCode) (number : ℕ) (s : Sender)
      → IsTalk message total leaving ds s
      → IsTalk message total leaving ds (complete id ec number s)
  unfolding complete
  complete-IsTalk id ec number s v = IsTalk-like s _ refl refl refl refl v.numbers v

  start_write-IsTalk :
      (op : SendOp) (number : ℕ) (frame : Bytes) (s : Sender)
      → Sent total leaving (frame ∷ []) (received_as (message op.id) number)
      → IsTalk message total leaving ds s
      → IsTalk message total leaving ds (start_write op number frame s)
  unfolding start_write
  start_write-IsTalk op number frame s f v = record {
    waiting_calls = v.waiting_calls;
    woken_calls = v.woken_calls;
    writes = All-append (IsDelivered message total leaving) s.writing _ v.writes (f, tt);
    sent = v.sent;
    numbers = v.numbers;
  }

  pub renumber-IsTalk :
      (n : ℕ) (s : Sender)
      → IsU32 n
      → IsTalk message total leaving ds s
      → IsTalk message total leaving ds (record s { sequence_number = n })
  renumber-IsTalk n s u v = IsTalk-like s _ refl refl refl refl u v

  -- The operations that wait, or were woken, are others.
  pub woken-IsTalk :
      (ops : List SendOp) (s : Sender)
      → All (IsCall message total leaving) ops
      → IsTalk message total leaving ds s
      → IsTalk message total leaving ds (record s { woken = ops })
  woken-IsTalk ops s h v = record {
    waiting_calls = v.waiting_calls;
    woken_calls = h;
    writes = v.writes;
    sent = v.sent;
    numbers = v.numbers;
  }

  pub waiting-IsTalk :
      (ops : List SendOp) (s : Sender)
      → All (IsCall message total leaving) ops
      → IsTalk message total leaving ds s
      → IsTalk message total leaving ds (record s { waiting = ops })
  waiting-IsTalk ops s h v = record {
    waiting_calls = h;
    woken_calls = v.woken_calls;
    writes = v.writes;
    sent = v.sent;
    numbers = v.numbers;
  }

  pub completed-IsTalk :
      (done : List Completion) (s : Sender)
      → IsTalk message total leaving ds s
      → IsTalk message total leaving ds (record s { completed = done })
  completed-IsTalk done s v = IsTalk-like s _ refl refl refl refl v.numbers v

  cleared-IsTalk :
      (s : Sender)
      → IsTalk message total leaving ds s
      → IsTalk message total leaving ds (record s { send_buf = [] })
  cleared-IsTalk s v = IsTalk-like s _ refl refl refl refl v.numbers v

module _ (message : ℕ → Message) (total : ℕ) (leaving : Bool) (small : total < 2 ^ 32)
    (ds : List Delivery) where
  -- A PDU is written, or its exception is reported and nothing is written.
  send_serialized-IsTalk :
      (op : SendOp) (v : PduVariant) (number status reported : ℕ) (s : Sender)
      → IsU32 number × IsU32 status
      → IsSendable total v
      → received_as (message op.id) reported ≡ (ok v, number, status) ∷ []
      → IsTalk message total leaving ds s
      → IsTalk message total leaving ds (
          send_serialized op
            (variant_id v)
            number
            status
            reported
            (serialize_variant v header_space)
            s)
  send_serialized-IsTalk op v number status reported s (n, st) (inl (valid, fits)) e t =
      let o : IsOutgoing v status number = record {
        is_variant = valid;
        status_u32 = st;
        number_u32 = n;
        short = omega arith;
      } in
      rw (serialize_variant-bytes v header_space valid) (
        unfold send_serialized in
        start_write-IsTalk message total leaving ds op reported _ s
          (subst (Sent total leaving _) (sym e)
            (pdu_frame-Sent total leaving v status number o fits))
          t)
  send_serialized-IsTalk op v number status reported s u (inr (x, thrown)) e t = rw thrown (
      unfold send_serialized in
      complete-IsTalk message total leaving ds op.id serialization_failed 0 _
        (cleared-IsTalk message total leaving ds s t))

  proceed-IsTalk :
      (op : SendOp) (m : Message) (s : Sender)
      → message op.id ≡ m
      → IsMessage total leaving m
      → IsTalk message total leaving ds s
      → IsTalk message total leaving ds (proceed op (kind_of m) s)
  unfolding proceed
  proceed-IsTalk op (request_of v) s e (q, u, h) t =
      let number = numbered (serialize_variant v header_space) s.sequence_number in
      let n = numbered-IsU32 (serialize_variant v header_space) s.sequence_number t.numbers in
      send_serialized-IsTalk op v number rok number _ (n, omega arith) h
        (ap (λ m. received_as m number) e) (renumber-IsTalk message total leaving ds number s n t)
  proceed-IsTalk op (response_of v number status) s e (q, u, h, n, st) t =
      send_serialized-IsTalk op v number status 0 s (n, st) h (ap (λ m. received_as m 0) e) t
  proceed-IsTalk op (command_of command_id number) s e (own, n, fits) t =
      start_write-IsTalk message total leaving ds op 0 _ s
        (subst (Sent total leaving _) (ap (λ m. received_as m 0) (sym e))
          (command-Sent total leaving command_id number own n fits))
        t

  pub attempt-IsTalk :
      (op : SendOp) (s : Sender)
      → IsCall message total leaving op
      → IsTalk message total leaving ds s
      → IsTalk message total leaving ds (attempt op s)
  unfolding attempt
  attempt-IsTalk op s (c, h) t = elim (Bool-cases (is_empty s.send_buf)) [
    | inl free ↦ rw free (
        subst (λ k. IsTalk message total leaving ds (proceed op k s))
          (sym (ap (λ (o : SendOp). o.kind) c)) (proceed-IsTalk op (message op.id) s refl h t))
    | inr busy ↦ rw busy (record {
      waiting_calls =
          All-append (IsCall message total leaving) s.waiting (op ∷ []) t.waiting_calls
            ((c, h), tt);
      woken_calls = t.woken_calls;
      writes = t.writes;
      sent = t.sent;
      numbers = t.numbers;
    })
  ]

  pub resume-IsTalk :
      (op : SendOp) (ec : ErrorCode) (cancelled : Bool) (s : Sender)
      → IsCall message total leaving op
      → IsTalk message total leaving ds s
      → IsTalk message total leaving ds (resume op ec cancelled s)
  unfolding resume
  resume-IsTalk op ec cancelled s h t = elim (Bool-cases (not (is_aborted ec) || cancelled)) [
    | inl over ↦ rw over (complete-IsTalk message total leaving ds op.id ec 0 s t)
    | inr again ↦ rw again (attempt-IsTalk op s h t)
  ]

  cancel_one-IsTalk :
      (s : Sender) (ops : List SendOp)
      → s.waiting ≡ ops
      → IsTalk message total leaving ds s
      → IsTalk message total leaving ds (cancel_one s)
  unfolding cancel_one
  cancel_one-IsTalk s [] e t = rw (e, cancel_one) t
  cancel_one-IsTalk s (op ∷ ops) e t =
      let valid : All (IsCall message total leaving) (op ∷ ops) =
        subst (All (IsCall message total leaving)) e t.waiting_calls in
      rw (e, cancel_one)
        (record {
          waiting_calls = valid.1;
          woken_calls =
              All-append (IsCall message total leaving) s.woken (op ∷ []) t.woken_calls
                (valid.0, tt);
          writes = t.writes;
          sent = t.sent;
          numbers = t.numbers;
        })

  release-IsTalk :
      (op : SendOp) (ec : ErrorCode) (number : ℕ) (s : Sender)
      → IsTalk message total leaving ds s
      → IsTalk message total leaving ds (release op ec number s)
  unfolding release
  release-IsTalk op ec number s t = complete-IsTalk message total leaving ds op.id ec number _ (
      cancel_one-IsTalk (record s { send_buf = [] }) s.waiting refl
        (cleared-IsTalk message total leaving ds s t))

  pub finish-IsTalk :
      (w : Write) (kind : Kind) (ec : ErrorCode) (cancelled : Bool) (s : Sender)
      → IsTalk message total leaving ds s
      → IsTalk message total leaving ds (finish w kind ec cancelled s)
  unfolding finish
  finish-IsTalk w (command command_id number) ec cancelled s t =
      elim (Bool-cases (is_aborted ec && not cancelled)) [
        | inl late ↦
            rw late (complete-IsTalk message total leaving ds w.op.id enquire_link_timeout 0 s t)
        | inr in_time ↦ rw in_time (release-IsTalk w.op ec 0 s t)
      ]
  finish-IsTalk w (request command_id serialize) ec cancelled s t =
      release-IsTalk w.op ec w.sequence_number s t
  finish-IsTalk w (response command_id serialize number status) ec cancelled s t =
      release-IsTalk w.op ec 0 s t
