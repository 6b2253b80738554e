-- ===== src/Net/Session/Send/Faults.antt =====
-- Two histories of the send operations after which the buffer is not handed on.
use smpp.Common.{ℕ, ◌≡◌, refl, sym, ap, subst, ◌⊎◌, inl, inr, arith}
use smpp.Common.{Bool, true, false, not, ◌||◌, List, [], ◌∷◌, Bool-cases}
use smpp.Exceptions.{Bytes, Exception, throws}
use smpp.Net.Session.{ErrorCode, operation_aborted, is_aborted}
use smpp.Net.Session.Send.{
  Kind, command, request, response, SendOp, Write, Sender, is_empty, header_space, complete,
  send_serialized, numbered, proceed, attempt, send_unbind, resume, cancel_one, release, finish,
  written, write_end, Step, starts, unbinds, resumes, cancels, ends, Reach, here, next,
}
use smpp.Net.Session.Send.Lock.{Owned, IsSender}
use smpp.Net.Session.Send.Wakeups.{is_nil, is_nil-remove, timed_out, not_empty}

-- Nobody writes, and the buffer is not free.
abbrev pub Stalled : Sender → Type 0
Stalled s = (is_nil s.writing ≡ true) × (is_empty s.send_buf ≡ false)

abbrev pub Kept : List Bytes → Sender → Type 0
Kept wire s = Stalled s × (s.wire ≡ wire)

attempt-Kept :
    (op : SendOp) (wire : List Bytes) (s : Sender) → Kept wire s → Kept wire (attempt op s)
unfolding attempt
attempt-Kept op wire s h = rw h.0.1 h

resume-Kept :
    (op : SendOp) (ec : ErrorCode) (cancelled : Bool) (wire : List Bytes) (s : Sender)
    → Kept wire s
    → Kept wire (resume op ec cancelled s)
unfolding resume complete
resume-Kept op ec cancelled wire s h = elim (Bool-cases (not (is_aborted ec) || cancelled)) [
  | inl over ↦ rw over h
  | inr again ↦ rw again (attempt-Kept op wire s h)
]

Step-Kept : {s t : Sender} (wire : List Bytes) → Step s t → Kept wire s → Kept wire t
Step-Kept wire (starts op s h) k = attempt-Kept op wire s k
Step-Kept wire (unbinds id s) k = unfold send_unbind in attempt-Kept _ wire _ k
Step-Kept wire (resumes op before behind cancelled s e) k =
    resume-Kept op operation_aborted cancelled wire _ k
Step-Kept wire (cancels op before behind s e) k = resume-Kept op operation_aborted true wire _ k
Step-Kept wire (ends w before behind ec cancelled s e) k =
    let busy = is_nil-remove before behind w s.writing e in absurd cc

Reach-Kept : {s t : Sender} (wire : List Bytes) → Reach s t → Kept wire s → Kept wire t
Reach-Kept wire here k = k
Reach-Kept wire (next r st) k = Step-Kept wire st (Reach-Kept wire r k)

filled : (s : Sender) (w : Write) → s.writing ≡ w ∷ [] → IsSender s → is_empty s.send_buf ≡ false
filled s w e v =
    let held : Owned (w ∷ []) s.send_buf = subst (λ x. Owned x s.send_buf) e v.owned in
    not_empty s.send_buf (omega (arith, held.1.0))

-- Where the write of a command is ended by its time limit, the session sends nothing any more: in
-- every later history no write is under way, the buffer is not free, and nothing else goes out.
pub timed_out-Stalled :
    {t : Sender} (w : Write) (command_id number : ℕ) (s : Sender)
    → s.writing ≡ w ∷ []
    → w.op.kind ≡ command command_id number
    → IsSender s
    → Reach (write_end w operation_aborted false (record s { writing = [] })) t
    → Stalled t × (t.wire ≡ s.wire)
timed_out-Stalled w command_id number s e k v r =
    Reach-Kept s.wire r
      (unfold write_end in unfold finish in unfold complete in rw k ((refl, filled s w e v), refl))

-- The buffer is free, nobody writes, nobody was woken, and these operations wait.
abbrev pub Forgotten : List SendOp → Sender → Type 0
Forgotten ops s = (s.send_buf ≡ []) × (s.writing ≡ []) × (s.woken ≡ []) × (s.waiting ≡ ops)

-- The PDU cannot be serialized.
abbrev pub Throws : Kind → Type 0
Throws (command command_id number) = ⊥
Throws (request command_id serialize) = (e : Exception) × (serialize header_space ≡ throws e)
Throws (response command_id serialize number status) =
    (e : Exception) × (serialize header_space ≡ throws e)

proceed-Forgotten :
    (op : SendOp) (kind : Kind) (ops : List SendOp) (s : Sender)
    → Throws kind
    → Forgotten ops s
    → Forgotten ops (proceed op kind s)
unfolding proceed send_serialized complete numbered
proceed-Forgotten op (command command_id number) ops s h f = absurd h
proceed-Forgotten op (request command_id serialize) ops s (x, e) f = rw e (refl, f.1, f.2, f.3)
proceed-Forgotten op (response command_id serialize number status) ops s (x, e) f =
    rw e (refl, f.1, f.2, f.3)

resume-Forgotten :
    (op : SendOp) (ops : List SendOp) (cancelled : Bool) (s : Sender)
    → (cancelled ≡ true) ⊎ Throws op.kind
    → Forgotten ops s
    → Forgotten ops (resume op operation_aborted cancelled s)
unfolding resume attempt complete
resume-Forgotten op ops true s h f = f
resume-Forgotten op ops false s (inl h) f = absurd cc
resume-Forgotten op ops false s (inr h) f =
    let free : is_empty s.send_buf ≡ true = ap is_empty f.0 in
    rw free (proceed-Forgotten op op.kind ops s h f)

-- A write that is no timed out command ends in `release`.
finish-release :
    (w : Write) (kind : Kind) (ec : ErrorCode) (cancelled : Bool) (s : Sender)
    → timed_out kind ec cancelled ≡ false
    → (n : ℕ) × (finish w kind ec cancelled s ≡ release w.op ec n s)
unfolding finish
finish-release w (command command_id number) ec cancelled s h = rw h (0, refl)
finish-release w (request command_id serialize) ec cancelled s h = (w.sequence_number, refl)
finish-release w (response command_id serialize number status) ec cancelled s h = (0, refl)

release-Forgotten :
    (op w : SendOp) (ec : ErrorCode) (n : ℕ) (ops : List SendOp) (s : Sender)
    → s.writing ≡ []
    → s.woken ≡ []
    → s.waiting ≡ op ∷ ops
    → ((release w ec n s).woken ≡ op ∷ [])
      × Forgotten ops (record (release w ec n s) { woken = [] })
unfolding release complete cancel_one
release-Forgotten op w ec n ops s free nobody e =
    rw (e, nobody, cancel_one) (refl, (refl, free, refl, refl))

-- Where operations wait, no other write is under way and no operation was woken, the end of a write
-- that is no command that timed out wakes the first of those that wait, and no other. If that one
-- is then cancelled, or its PDU cannot be serialized, it wakes no other: the buffer is free while
-- the operations behind it wait, nobody writes, and nobody is woken.
pub resume-write_end-Forgotten :
    (w : Write) (ec : ErrorCode) (by_caller : Bool) (op : SendOp) (ops : List SendOp)
    (cancelled : Bool) (s : Sender)
    → timed_out w.op.kind ec by_caller ≡ false
    → s.writing ≡ []
    → s.woken ≡ []
    → s.waiting ≡ op ∷ ops
    → (cancelled ≡ true) ⊎ Throws op.kind
    → ((write_end w ec by_caller s).woken ≡ op ∷ [])
      × Forgotten ops (
          resume op operation_aborted cancelled
            (record (write_end w ec by_caller s) { woken = [] }))
unfolding write_end
resume-write_end-Forgotten w ec by_caller op ops cancelled s in_time free nobody waits fails =
    let t = record s { wire = written ec s.send_buf s.wire } in
    let (n, e) = finish-release w w.op.kind ec by_caller t in_time in
    let (woke, f) =
      subst (λ t. (t.woken ≡ op ∷ []) × Forgotten ops (record t { woken = [] })) (sym e)
        (release-Forgotten op w.op ec n ops t free nobody waits) in
    (woke, resume-Forgotten op ops cancelled _ fails f)
