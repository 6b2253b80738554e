-- ===== src/Net/Session/Send/Effects.antt =====
-- What the handlers of the send operations leave in flight, and what completes by them.
use smpp.Common.{ℕ, ◌≡◌, refl, ap, sym, subst, ◌∙◌, inl, inr, Bool, not, ◌&&◌, ◌||◌, Bool-cases}
use smpp.Common.{List, [], ◌∷◌, ◌++◌, All, All-append, append-nil}
use smpp.Exceptions.{Bytes, Result, ok, throws, stuck}
use smpp.CommandId.{CommandId}
use smpp.Header.{rok}
use smpp.Net.Session.{ErrorCode, serialization_failed, enquire_link_timeout, is_aborted}
use smpp.Net.Session.Send.{
  Kind, command, request, response, SendOp, Write, Completion, Sender, is_empty, header_space,
  complete, start_write, send_serialized, numbered, proceed, attempt, resume, cancel_one, release,
  finish,
}

-- The operations that have not completed.
pub record InFlight (Q : SendOp → Type 0) (s : Sender) : Type 0 where
  pub waiting_ops : All Q s.waiting
  pub woken_ops : All Q s.woken
  pub writing_ops : All (λ (w : Write). Q w.op) s.writing

-- The operations that are left, and the completions that are added.
pub record Goes (Q : SendOp → Type 0) (C : Completion → Type 0) (s t : Sender) : Type 0 where
  pub flying : InFlight Q t
  pub done : List Completion
  pub all_completed : t.completed ≡ s.completed ++ done
  pub each : All C done

-- An operation that completes at once.
pub record Done (Q : SendOp → Type 0) (C : Completion → Type 0) (s t : Sender) : Type 0 where
  pub flying : InFlight Q t
  pub done : Completion
  pub all_completed : t.completed ≡ s.completed ++ (done ∷ [])
  pub fits : C done

abbrev pub completion : ℕ → ErrorCode → ℕ → Completion
completion id ec number = record { id = id; ec = ec; sequence_number = number }

module _ (Q : SendOp → Type 0) (C : Completion → Type 0) where
  complete-Done :
      (id : ℕ) (ec : ErrorCode) (number : ℕ) (s : Sender)
      → InFlight Q s
      → C (completion id ec number)
      → Done Q C s (complete id ec number s)
  unfolding complete
  complete-Done id ec number s v c = record {
    flying = record {
      waiting_ops = v.waiting_ops;
      woken_ops = v.woken_ops;
      writing_ops = v.writing_ops;
    };
    done = completion id ec number;
    all_completed = refl;
    fits = c;
  }

  Done-Goes : {s t : Sender} → Done Q C s t → Goes Q C s t
  Done-Goes d = record {
    flying = d.flying;
    done = d.done ∷ [];
    all_completed = d.all_completed;
    each = (d.fits, tt);
  }

  start_write-Goes :
      (op : SendOp) (number : ℕ) (frame : Bytes) (s : Sender)
      → Q op
      → InFlight Q s
      → Goes Q C s (start_write op number frame s)
  unfolding start_write
  start_write-Goes op number frame s q v = record {
    flying = record {
      waiting_ops = v.waiting_ops;
      woken_ops = v.woken_ops;
      writing_ops = All-append (λ (w : Write). Q w.op) s.writing _ v.writing_ops (q, tt);
    };
    done = [];
    all_completed = sym (append-nil s.completed);
    each = tt;
  }

  still :
      (s t : Sender)
      → s.waiting ≡ t.waiting
      → s.woken ≡ t.woken
      → s.writing ≡ t.writing
      → InFlight Q s
      → InFlight Q t
  still s t a b c v = record {
    waiting_ops = subst (All Q) a v.waiting_ops;
    woken_ops = subst (All Q) b v.woken_ops;
    writing_ops = subst (All (λ (w : Write). Q w.op)) c v.writing_ops;
  }

  send_serialized-Goes :
      (op : SendOp) (command_id : CommandId) (number status reported : ℕ) (result : Result Bytes)
      (s : Sender)
      → Q op
      → C (completion op.id serialization_failed 0)
      → InFlight Q s
      → Goes Q C s (send_serialized op command_id number status reported result s)
  unfolding send_serialized
  send_serialized-Goes op command_id number status reported (ok vec) s q c v =
      start_write-Goes op reported _ s q v
  send_serialized-Goes op command_id number status reported (throws e) s q c v =
      let d =
        complete-Done op.id serialization_failed 0 _
          (still s (record s { send_buf = [] }) refl refl refl v) c in
      record {
        flying = d.flying;
        done = d.done ∷ [];
        all_completed = d.all_completed;
        each = (d.fits, tt);
      }
  send_serialized-Goes op command_id number status reported stuck s q c v = record {
    flying = v;
    done = [];
    all_completed = sym (append-nil s.completed);
    each = tt;
  }

  proceed-Goes :
      (op : SendOp) (kind : Kind) (s : Sender)
      → Q op
      → C (completion op.id serialization_failed 0)
      → InFlight Q s
      → Goes Q C s (proceed op kind s)
  unfolding proceed
  proceed-Goes op (command command_id number) s q c v = start_write-Goes op 0 _ s q v
  proceed-Goes op (request command_id serialize) s q c v =
      let number = numbered (serialize header_space) s.sequence_number in
      let g =
        send_serialized-Goes op command_id number rok number (serialize header_space) _ q c
          (still s (record s { sequence_number = number }) refl refl refl v) in
      record { flying = g.flying; done = g.done; all_completed = g.all_completed; each = g.each }
  proceed-Goes op (response command_id serialize number status) s q c v =
      send_serialized-Goes op command_id number status 0 (serialize header_space) s q c v

  pub attempt-Goes :
      (op : SendOp) (s : Sender)
      → Q op
      → C (completion op.id serialization_failed 0)
      → InFlight Q s
      → Goes Q C s (attempt op s)
  unfolding attempt
  attempt-Goes op s q c v = elim (Bool-cases (is_empty s.send_buf)) [
    | inl free ↦ rw free (proceed-Goes op op.kind s q c v)
    | inr busy ↦ rw busy (record {
      flying = record {
        waiting_ops = All-append Q s.waiting (op ∷ []) v.waiting_ops (q, tt);
        woken_ops = v.woken_ops;
        writing_ops = v.writing_ops;
      };
      done = [];
      all_completed = sym (append-nil s.completed);
      each = tt;
    })
  ]

  pub resume-Goes :
      (op : SendOp) (ec : ErrorCode) (cancelled : Bool) (s : Sender)
      → Q op
      → C (completion op.id serialization_failed 0)
      → C (completion op.id ec 0)
      → InFlight Q s
      → Goes Q C s (resume op ec cancelled s)
  unfolding resume
  resume-Goes op ec cancelled s q c d v = elim (Bool-cases (not (is_aborted ec) || cancelled)) [
    | inl over ↦ rw over (Done-Goes (complete-Done op.id ec 0 s v d))
    | inr again ↦ rw again (attempt-Goes op s q c v)
  ]

  cancel_one-InFlight :
      (s : Sender) (ops : List SendOp) → s.waiting ≡ ops → InFlight Q s → InFlight Q (cancel_one s)
  unfolding cancel_one
  cancel_one-InFlight s [] e v = rw (e, cancel_one) v
  cancel_one-InFlight s (op ∷ ops) e v =
      let q = subst (All Q) e v.waiting_ops in
      rw (e, cancel_one)
        (record {
          waiting_ops = q.1;
          woken_ops = All-append Q s.woken (op ∷ []) v.woken_ops (q.0, tt);
          writing_ops = v.writing_ops;
        })

  cancel_one-completed :
      (s : Sender) (ops : List SendOp) → s.waiting ≡ ops → (cancel_one s).completed ≡ s.completed
  unfolding cancel_one
  cancel_one-completed s [] e = rw (e, cancel_one) refl
  cancel_one-completed s (op ∷ ops) e = rw (e, cancel_one) refl

  release-Done :
      (op : SendOp) (ec : ErrorCode) (number : ℕ) (s : Sender)
      → C (completion op.id ec number)
      → InFlight Q s
      → Done Q C s (release op ec number s)
  unfolding release
  release-Done op ec number s c v =
      let d =
        complete-Done op.id ec number _
          (cancel_one-InFlight (record s { send_buf = [] }) s.waiting refl
            (still s (record s { send_buf = [] }) refl refl refl v))
          c in
      record {
        flying = d.flying;
        done = d.done;
        all_completed =
            d.all_completed
            ∙ ap (λ cs. cs ++ (d.done ∷ []))
                (cancel_one-completed (record s { send_buf = [] }) s.waiting refl);
        fits = d.fits;
      }

  -- The numbers with which a write may complete.
  unfoldable pub Reports : Kind → Write → ErrorCode → Type 0
  Reports (command command_id number) w ec =
      C (completion w.op.id enquire_link_timeout 0) × C (completion w.op.id ec 0)
  Reports (request command_id serialize) w ec = C (completion w.op.id ec w.sequence_number)
  Reports (response command_id serialize number status) w ec = C (completion w.op.id ec 0)

  pub finish-Done :
      (w : Write) (kind : Kind) (ec : ErrorCode) (cancelled : Bool) (s : Sender)
      → Reports kind w ec
      → InFlight Q s
      → Done Q C s (finish w kind ec cancelled s)
  unfolding finish Reports
  finish-Done w (command command_id number) ec cancelled s c v =
      elim (Bool-cases (is_aborted ec && not cancelled)) [
        | inl late ↦ rw late (complete-Done w.op.id enquire_link_timeout 0 s v c.0)
        | inr in_time ↦ rw in_time (release-Done w.op ec 0 s c.1 v)
      ]
  finish-Done w (request command_id serialize) ec cancelled s c v =
      release-Done w.op ec w.sequence_number s c v
  finish-Done w (response command_id serialize number status) ec cancelled s c v =
      release-Done w.op ec 0 s c v
