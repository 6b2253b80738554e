-- ===== src/Net/Session/Connection/Moves.antt =====
-- What one event of the send operations does to the operations of a caller: one operation moves, and
-- where it completes, its completion says what went out.
use smpp.Common.{ℕ, ◌≤◌, ◌≡◌, refl, ap, sym, subst, ◌∙◌, arith, Bool, true}
use smpp.Common.{List, [], ◌∷◌, ◌++◌, All, All-remove}
use smpp.Exceptions.{Bytes}
use smpp.Net.Session.{
  ErrorCode, no_error, operation_aborted, system_error, serialization_failed, enquire_link_timeout,
  unbinded,
}
use smpp.Net.Session.Send.{SendOp, Write, Completion, Sender, resume, written, write_end, IsOp}
use smpp.Net.Session.Send.Lock.{IsSender}
use smpp.Net.Session.Send.Once.{
  sum_of-remove, pending, tally, only, tally-woken, tally-cancelled, tally-write_end,
}
use smpp.Net.Session.Send.Effects.{InFlight, Reports, resume-Goes, finish-Done}
use smpp.Net.PduVariant.{PduVariant}
use smpp.Net.Session.Stream.{Delivery}
use smpp.Net.Session.Connection.{
  Message, request_of, response_of, command_of, kind_of, went_out, call, Events, resumes, cancels,
  ends,
}

module _ (message : ℕ → Message) where
  -- An operation that sends the message of its id, which is such an id.
  abbrev pub IsKnown : (ℕ → Type 0) → SendOp → Type 0
  IsKnown P op = (op ≡ call message op.id) × P op.id

  -- The completion of the operation says what went out by the event.
  abbrev pub IsReport : ℕ → List Delivery → Completion → Type 0
  IsReport id out c = (c.id ≡ id) × (out ≡ went_out c.ec (message id) c.sequence_number)

  pub record Moves (P : ℕ → Type 0) (out : List Delivery) (s t : Sender) : Type 0 where
    pub id : ℕ
    pub known : P id
    pub was_pending : 1 ≤ pending (only id) s
    pub flying : InFlight (IsKnown P) t
    pub done : List Completion
    pub all_completed : t.completed ≡ s.completed ++ done
    pub each : All (IsReport id out) done
    pub silent : done ≡ [] → out ≡ []
    pub same_tally : (k : ℕ) → tally (only k) t ≡ tally (only k) s

  pub only-same : (k : ℕ) → only k k ≡ 1
  only-same k = ground arith

  pub went_out-command :
      (ec : ErrorCode) (id number reported : ℕ) → went_out ec (command_of id number) reported ≡ []
  went_out-command no_error id number reported = refl
  went_out-command operation_aborted id number reported = refl
  went_out-command (system_error n) id number reported = refl
  went_out-command serialization_failed id number reported = refl
  went_out-command enquire_link_timeout id number reported = refl
  went_out-command unbinded id number reported = refl

  went_out-response :
      (ec : ErrorCode) (v : PduVariant) (number status a b : ℕ)
      → went_out ec (response_of v number status) a ≡ went_out ec (response_of v number status) b
  went_out-response no_error v number status a b = refl
  went_out-response operation_aborted v number status a b = refl
  went_out-response (system_error n) v number status a b = refl
  went_out-response serialization_failed v number status a b = refl
  went_out-response enquire_link_timeout v number status a b = refl
  went_out-response unbinded v number status a b = refl

  -- However a write ends, its completion reports what went out.
  reports :
      (P : ℕ → Type 0) (w : Write) (ec : ErrorCode) (m : Message)
      → message w.op.id ≡ m
      → Reports
          (IsKnown P)
          (IsReport w.op.id (went_out ec (message w.op.id) w.sequence_number))
          (kind_of m)
          w
          ec
  unfolding Reports
  reports P w ec (request_of v) e = (refl, refl)
  reports P w ec (response_of v number status) e =
      (refl, rw e (went_out-response ec v number status w.sequence_number 0))
  reports P w ec (command_of id number) e = (
    (refl, rw e (went_out-command ec id number w.sequence_number)),
    (
      refl,
      rw e
          (went_out-command ec id number w.sequence_number ∙ sym (went_out-command ec id number 0)),
    ),
  )

  module _ (P : ℕ → Type 0) where
    -- A wait ends: the operation writes, or waits again, or completes with an error.
    woken-Moves :
        (op : SendOp) (before behind : List SendOp) (cancelled : Bool) (s : Sender)
        → s.woken ≡ before ++ (op ∷ behind)
        → IsOp op
        → InFlight (IsKnown P) s
        → Moves P [] s
            (resume op operation_aborted cancelled (record s { woken = before ++ behind }))
    woken-Moves op before behind cancelled s e h v =
        let (q, left) = All-remove (IsKnown P) before behind op s.woken e v.woken_ops in
        let g =
          resume-Goes (IsKnown P) (IsReport op.id []) op operation_aborted cancelled
            (record s { woken = before ++ behind }) q (refl, refl) (refl, refl)
            (record {
              waiting_ops = v.waiting_ops;
              woken_ops = left;
              writing_ops = v.writing_ops;
            }) in
        record {
          id = op.id;
          known = q.1;
          was_pending =
              unfold pending in
              omega (
                arith,
                only-same op.id,
                sum_of-remove (λ (o : SendOp). only op.id o.id) before behind op s.woken e,
              );
          flying = g.flying;
          done = g.done;
          all_completed = g.all_completed;
          each = g.each;
          silent = λ e. refl;
          same_tally = λ k. tally-woken (only k) op before behind cancelled s e h;
        }

    cancelled-Moves :
        (op : SendOp) (before behind : List SendOp) (s : Sender)
        → s.waiting ≡ before ++ (op ∷ behind)
        → IsOp op
        → InFlight (IsKnown P) s
        → Moves P [] s (resume op operation_aborted true (record s { waiting = before ++ behind }))
    cancelled-Moves op before behind s e h v =
        let (q, left) = All-remove (IsKnown P) before behind op s.waiting e v.waiting_ops in
        let g =
          resume-Goes (IsKnown P) (IsReport op.id []) op operation_aborted true
            (record s { waiting = before ++ behind }) q (refl, refl) (refl, refl)
            (record { waiting_ops = left; woken_ops = v.woken_ops; writing_ops = v.writing_ops }) in
        record {
          id = op.id;
          known = q.1;
          was_pending =
              unfold pending in
              omega (
                arith,
                only-same op.id,
                sum_of-remove (λ (o : SendOp). only op.id o.id) before behind op s.waiting e,
              );
          flying = g.flying;
          done = g.done;
          all_completed = g.all_completed;
          each = g.each;
          silent = λ e. refl;
          same_tally = λ k. tally-cancelled (only k) op before behind s e h;
        }

    -- A write ends: its operation completes.
    ended-Moves :
        (w : Write) (before behind : List Write) (ec : ErrorCode) (cancelled : Bool) (s : Sender)
        → s.writing ≡ before ++ (w ∷ behind)
        → InFlight (IsKnown P) s
        → Moves P
            (went_out ec (message w.op.id) w.sequence_number)
            s
            (write_end w ec cancelled (record s { writing = before ++ behind }))
    ended-Moves w before behind ec cancelled s e v =
        let (q, left) =
          All-remove (λ (x : Write). IsKnown P x.op) before behind w s.writing e v.writing_ops in
        let out = went_out ec (message w.op.id) w.sequence_number in
        let d =
          finish-Done (IsKnown P) (IsReport w.op.id out) w w.op.kind ec cancelled
            (record s { writing = before ++ behind; wire = written ec s.send_buf s.wire })
            (subst (λ k. Reports (IsKnown P) (IsReport w.op.id out) k w ec)
              (sym (ap (λ (o : SendOp). o.kind) q.0)) (reports P w ec (message w.op.id) refl))
            (record { waiting_ops = v.waiting_ops; woken_ops = v.woken_ops; writing_ops = left }) in
        record {
          id = w.op.id;
          known = q.1;
          was_pending =
              unfold pending in
              omega (
                arith,
                only-same w.op.id,
                sum_of-remove (λ (x : Write). only w.op.id x.op.id) before behind w s.writing e,
              );
          flying = unfold write_end in d.flying;
          done = d.done ∷ [];
          all_completed = unfold write_end in d.all_completed;
          each = (d.fits, tt);
          silent = λ e. absurd (let no : d.done ∷ [] ≡ [] = e in cc);
          same_tally = λ k. tally-write_end (only k) w before behind ec cancelled s e;
        }

    pub Events-Moves :
        {s t : Sender} {out : List Delivery} {frames : List Bytes}
        → Events message s out frames t
        → IsSender s
        → InFlight (IsKnown P) s
        → Moves P out s t
    Events-Moves {s} (resumes op before behind cancelled e) v f =
        woken-Moves op before behind cancelled s e
          ((All-remove IsOp before behind op s.woken e v.woken_ops).0) f
    Events-Moves {s} (cancels op before behind e) v f =
        cancelled-Moves op before behind s e
          ((All-remove IsOp before behind op s.waiting e v.waiting_ops).0) f
    Events-Moves {s} (ends w before behind ec cancelled e) v f =
        ended-Moves w before behind ec cancelled s e f
