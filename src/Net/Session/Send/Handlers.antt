-- ===== src/Net/Session/Send/Handlers.antt =====
-- The other handlers of the send operations, and every history of them.
use smpp.Common.{sym, length, ◌≤◌}
use smpp.Net.Session.Send.Lock.{Owned-ends}
use smpp.Common.{ℕ, ◌≡◌, refl, subst, inl, inr, arith}
use smpp.Common.{Bool, true, not, ◌&&◌, ◌||◌, List, [], ◌∷◌, ◌++◌, All, All-append, All-remove}
use smpp.Common.{Bool-cases}
use smpp.Exceptions.{Bytes}
use smpp.Net.Session.{ErrorCode, no_error, operation_aborted, system_error, serialization_failed}
use smpp.Net.Session.{enquire_link_timeout, unbinded, is_aborted}
use smpp.Net.Session.Send.{
  Kind, command, request, response, SendOp, Write, Sender, new_sender, send_unbind, resume,
  cancel_one, release, finish, written, write_end, Step, starts, unbinds, resumes, cancels, ends,
  Reach, here, next, IsOp,
}
use smpp.Net.Session.Send.Lock.{
  IsFrame, Owned, IsSender, IsFree, attempt-IsSender, complete-IsSender,
}
use smpp.Net.Session.Send.Lock.{
  woken-IsSender, waiting-IsSender, cleared-IsSender, next_sequence_number-IsU32, renumber-IsSender,
}

pub resume-IsSender :
    (op : SendOp) (ec : ErrorCode) (cancelled : Bool) (s : Sender)
    → IsOp op
    → IsSender s
    → IsSender (resume op ec cancelled s)
unfolding resume
resume-IsSender op ec cancelled s h v = elim (Bool-cases (not (is_aborted ec) || cancelled)) [
  | inl over ↦ rw over (complete-IsSender op.id ec 0 s v)
  | inr again ↦ rw again (attempt-IsSender op s h v)
]

cancel_one-IsSender :
    (s : Sender) (ops : List SendOp) → s.waiting ≡ ops → IsSender s → IsSender (cancel_one s)
unfolding cancel_one
cancel_one-IsSender s [] e v = rw (e, cancel_one) v
cancel_one-IsSender s (op ∷ ops) e v =
    let valid : All IsOp (op ∷ ops) = subst (All IsOp) e v.waiting_ops in
    rw (e, cancel_one)
      (record {
        owned = v.owned;
        frames = v.frames;
        numbers = v.numbers;
        waiting_ops = valid.1;
        woken_ops = All-append IsOp s.woken (op ∷ []) v.woken_ops (valid.0, tt);
      })

release-IsSender :
    (op : SendOp) (ec : ErrorCode) (number : ℕ) (s : Sender)
    → IsFree s
    → IsSender s
    → IsSender (release op ec number s)
unfolding release
release-IsSender op ec number s free v =
    complete-IsSender op.id ec number _
      (cancel_one-IsSender (record s { send_buf = [] }) s.waiting refl (cleared-IsSender s free v))

finish-IsSender :
    (w : Write) (kind : Kind) (ec : ErrorCode) (cancelled : Bool) (s : Sender)
    → IsFree s
    → IsSender s
    → IsSender (finish w kind ec cancelled s)
unfolding finish
finish-IsSender w (command command_id number) ec cancelled s free v =
    elim (Bool-cases (is_aborted ec && not cancelled)) [
      | inl late ↦ rw late (complete-IsSender w.op.id enquire_link_timeout 0 s v)
      | inr in_time ↦ rw in_time (release-IsSender w.op ec 0 s free v)
    ]
finish-IsSender w (request command_id serialize) ec cancelled s free v =
    release-IsSender w.op ec w.sequence_number s free v
finish-IsSender w (response command_id serialize number status) ec cancelled s free v =
    release-IsSender w.op ec 0 s free v

written-IsFrame :
    (ec : ErrorCode) (frame : Bytes) (wire : List Bytes)
    → IsFrame frame
    → All IsFrame wire
    → All IsFrame (written ec frame wire)
written-IsFrame no_error frame wire f h = All-append IsFrame wire (frame ∷ []) h (f, tt)
written-IsFrame operation_aborted frame wire f h = h
written-IsFrame (system_error n) frame wire f h = h
written-IsFrame serialization_failed frame wire f h = h
written-IsFrame enquire_link_timeout frame wire f h = h
written-IsFrame unbinded frame wire f h = h

pub write_end-IsSender :
    (w : Write) (before behind : List Write) (ec : ErrorCode) (cancelled : Bool) (s : Sender)
    → s.writing ≡ before ++ (w ∷ behind)
    → IsSender s
    → IsSender (write_end w ec cancelled (record s { writing = before ++ behind }))
unfolding write_end
write_end-IsSender w before behind ec cancelled s e v =
    let (alone, held) = Owned-ends w before behind s.writing s.send_buf e v.owned in
    finish-IsSender w w.op.kind ec cancelled _ alone (record {
      owned = subst (λ x. Owned x s.send_buf) (sym alone) tt;
      frames = written-IsFrame ec s.send_buf s.wire held.1 v.frames;
      numbers = v.numbers;
      waiting_ops = v.waiting_ops;
      woken_ops = v.woken_ops;
    })

send_unbind-IsSender : (id : ℕ) (s : Sender) → IsSender s → IsSender (send_unbind id s)
unfolding send_unbind
send_unbind-IsSender id s v =
    let n = next_sequence_number-IsU32 s.sequence_number in
    attempt-IsSender _ _ (omega arith, n) (renumber-IsSender _ s n v)

pub Step-IsSender : {s t : Sender} → Step s t → IsSender s → IsSender t
Step-IsSender (starts op s h) v = attempt-IsSender op s h v
Step-IsSender (unbinds id s) v = send_unbind-IsSender id s v
Step-IsSender (resumes op before behind cancelled s e) v =
    let (h, left) = All-remove IsOp before behind op s.woken e v.woken_ops in
    resume-IsSender op operation_aborted cancelled _ h (woken-IsSender _ s left v)
Step-IsSender (cancels op before behind s e) v =
    let (h, left) = All-remove IsOp before behind op s.waiting e v.waiting_ops in
    resume-IsSender op operation_aborted true _ h (waiting-IsSender _ s left v)
Step-IsSender (ends w before behind ec cancelled s e) v =
    write_end-IsSender w before behind ec cancelled s e v

pub Reach-IsSender : {s t : Sender} → IsSender s → Reach s t → IsSender t
Reach-IsSender v here = v
Reach-IsSender v (next r st) = Step-IsSender st (Reach-IsSender v r)

pub new_sender-IsSender : IsSender new_sender
new_sender-IsSender = record {
  owned = tt;
  frames = tt;
  numbers = omega arith;
  waiting_ops = tt;
  woken_ops = tt;
}

Owned-All :
    (ws : List Write) (buf : Bytes) → Owned ws buf → (length ws ≤ 1) × All (λ w. buf ≡ w.frame) ws
Owned-All [] buf h = (omega arith, tt)
Owned-All (w ∷ []) buf h = (omega arith, (h.0, tt))
Owned-All (w ∷ x ∷ ws) buf h = absurd h

-- However the send operations of a new session interleave, every frame that went out begins with a
-- header whose command_length is the length of the frame, at most one write is under way, and the
-- buffer holds what that write was given.
pub Reach-new_sender :
    {t : Sender}
    → Reach new_sender t
    → All IsFrame t.wire × (length t.writing ≤ 1) × All (λ w. t.send_buf ≡ w.frame) t.writing
Reach-new_sender {t} r =
    let v : IsSender t = Reach-IsSender new_sender-IsSender r in
    let (one, held) = Owned-All t.writing t.send_buf v.owned in (v.frames, one, held)
