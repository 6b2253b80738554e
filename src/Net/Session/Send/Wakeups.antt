-- ===== src/Net/Session/Send/Wakeups.antt =====
-- Who wakes the operations that wait for the buffer.
use smpp.Common.{ℕ, ◌≤◌, ◌≡◌, refl, inl, inr, arith}
use smpp.Common.{Bool, true, false, not, ◌&&◌, List, [], ◌∷◌, ◌++◌}
use smpp.Common.{length, Bool-cases}
use smpp.Exceptions.{Bytes, ok}
use smpp.Header.{Header, serialize_header}
use smpp.Header.RoundTrip.{length-serialize_header}
use smpp.Net.Session.{ErrorCode, operation_aborted, is_aborted}
use smpp.Net.Session.Send.{
  Kind, command, request, response, SendOp, Write, Sender, is_empty, header_space, complete,
  start_write, send_serialized, proceed, attempt, send_unbind, resume, cancel_one, release, finish,
  write_end,
}

abbrev pub is_nil {ℓ} : {A : Type ℓ} → List A → Bool
is_nil [] = true
is_nil (x ∷ xs) = false

-- A full buffer has a write under way, and where the buffer is free and operations wait for it,
-- one of them was woken.
pub record IsLive (s : Sender) : Type 0 where
  pub writes : is_empty s.send_buf ≡ false → is_nil s.writing ≡ false
  pub wakes : is_empty s.send_buf ≡ true → is_nil s.waiting ≡ false → is_nil s.woken ≡ false

-- The PDU is serialized without an exception.
abbrev pub Serializes : Kind → Type 0
Serializes (command command_id number) = Unit {0}
Serializes (request command_id serialize) =
    (body : Bytes) × (serialize header_space ≡ ok (header_space ++ body))
Serializes (response command_id serialize number status) =
    (body : Bytes) × (serialize header_space ≡ ok (header_space ++ body))

-- A command whose write was aborted by asio::cancel_after, not by the caller.
abbrev pub timed_out : Kind → ErrorCode → Bool → Bool
timed_out (command command_id number) ec cancelled = is_aborted ec && not cancelled
timed_out (request command_id serialize) ec cancelled = false
timed_out (response command_id serialize number status) ec cancelled = false

-- The events but for three: a woken operation is cancelled, a PDU cannot be serialized, the write of
-- a command times out.
pub data CleanStep : Sender → Sender → Type 0 where
  starts : (op : SendOp) (s : Sender) → Serializes op.kind → CleanStep s (attempt op s)
  unbinds : (id : ℕ) (s : Sender) → CleanStep s (send_unbind id s)
  resumes :
      (op : SendOp) (before behind : List SendOp) (s : Sender)
      → s.woken ≡ before ++ (op ∷ behind)
      → Serializes op.kind
      → CleanStep s (resume op operation_aborted false (record s { woken = before ++ behind }))
  cancels :
      (op : SendOp) (before behind : List SendOp) (s : Sender)
      → s.waiting ≡ before ++ (op ∷ behind)
      → CleanStep s (resume op operation_aborted true (record s { waiting = before ++ behind }))
  ends :
      (w : Write) (before behind : List Write) (ec : ErrorCode) (cancelled : Bool) (s : Sender)
      → s.writing ≡ before ++ (w ∷ behind)
      → timed_out w.op.kind ec cancelled ≡ false
      → CleanStep s (write_end w ec cancelled (record s { writing = before ++ behind }))

pub data CleanReach (s : Sender) : Sender → Type 0 where
  here : CleanReach s s
  next : {t u : Sender} → CleanReach s t → CleanStep t u → CleanReach s u

pub not_empty : (buf : Bytes) → 1 ≤ length buf → is_empty buf ≡ false
not_empty [] h = absurd (omega arith)
not_empty (b ∷ bs) h = refl

framed : (body : Bytes) (h : Header) → is_empty (serialize_header (header_space ++ body) h) ≡ false
framed body h =
    not_empty _ (omega (arith, length-serialize_header (header_space ++ body) h (omega arith)))

is_nil-append {ℓ} : {A : Type ℓ} → (xs : List A) (x : A) → is_nil (xs ++ (x ∷ [])) ≡ false
is_nil-append [] x = refl
is_nil-append (y ∷ xs) x = refl

-- Behind the loop the buffer is filled, and a write is under way.
proceed_writes :
    (op : SendOp) (kind : Kind) (s : Sender)
    → Serializes kind
    → (is_empty (proceed op kind s).send_buf ≡ false) × (is_nil (proceed op kind s).writing ≡ false)
unfolding proceed start_write send_serialized
proceed_writes op (command command_id number) s h = (framed [] _, is_nil-append s.writing _)
proceed_writes op (request command_id serialize) s (body, e) =
    rw e (framed body _, is_nil-append s.writing _)
proceed_writes op (response command_id serialize number status) s (body, e) =
    rw e (framed body _, is_nil-append s.writing _)

attempt-IsLive :
    (op : SendOp) (s : Sender)
    → Serializes op.kind
    → (is_empty s.send_buf ≡ false → is_nil s.writing ≡ false)
    → IsLive (attempt op s)
unfolding attempt
attempt-IsLive op s h w = elim (Bool-cases (is_empty s.send_buf)) [
  | inl free ↦
      let (full, busy) = proceed_writes op op.kind s h in
      rw free (record { writes = λ e. busy; wakes = λ e. cc })
  | inr taken ↦ rw taken (record { writes = w; wakes = λ e. cc })
]

resume_cancelled :
    (op : SendOp) (s : Sender)
    → resume op operation_aborted true s ≡ complete op.id operation_aborted 0 s
unfolding resume
resume_cancelled op s = refl

resume_again : (op : SendOp) (s : Sender) → resume op operation_aborted false s ≡ attempt op s
unfolding resume
resume_again op s = refl

-- A list with one element taken out has elements only if the list had.
pub is_nil-remove {ℓ} :
    {A : Type ℓ}
    → (before behind : List A) (op : A) (ops : List A) → ops ≡ before ++ (op ∷ behind)
    → is_nil ops ≡ false
is_nil-remove [] behind op ops e = rw e
is_nil-remove (x ∷ before) behind op ops e = rw e

cancel_one_wakes :
    (s : Sender) (ops : List SendOp)
    → s.waiting ≡ ops
    → is_nil (cancel_one s).waiting ≡ false
    → is_nil (cancel_one s).woken ≡ false
unfolding cancel_one
cancel_one_wakes s [] e h =
    let none_waits : (cancel_one s).waiting ≡ [] = rw (e, cancel_one) e in cc
cancel_one_wakes s (op ∷ ops) e h = rw (e, cancel_one) (is_nil-append s.woken op)

cancel_one_buf :
    (s : Sender) (ops : List SendOp) → s.waiting ≡ ops → (cancel_one s).send_buf ≡ s.send_buf
unfolding cancel_one
cancel_one_buf s [] e = rw (e, cancel_one) refl
cancel_one_buf s (op ∷ ops) e = rw (e, cancel_one) refl

release-IsLive :
    (op : SendOp) (ec : ErrorCode) (number : ℕ) (s : Sender) → IsLive (release op ec number s)
unfolding release complete
release-IsLive op ec number s = record {
  writes = λ e.
      let free : (cancel_one (record s { send_buf = [] })).send_buf ≡ [] =
        cancel_one_buf _ s.waiting refl in
      cc;
  wakes = λ e. cancel_one_wakes (record s { send_buf = [] }) s.waiting refl;
}

finish-IsLive :
    (w : Write) (kind : Kind) (ec : ErrorCode) (cancelled : Bool) (s : Sender)
    → timed_out kind ec cancelled ≡ false
    → IsLive (finish w kind ec cancelled s)
unfolding finish
finish-IsLive w (command command_id number) ec cancelled s h = rw h (release-IsLive w.op ec 0 s)
finish-IsLive w (request command_id serialize) ec cancelled s h =
    release-IsLive w.op ec w.sequence_number s
finish-IsLive w (response command_id serialize number status) ec cancelled s h =
    release-IsLive w.op ec 0 s

CleanStep-IsLive : {s t : Sender} → CleanStep s t → IsLive s → IsLive t
CleanStep-IsLive (starts op s h) v = attempt-IsLive op s h v.writes
CleanStep-IsLive (unbinds id s) v = unfold send_unbind in attempt-IsLive _ _ tt v.writes
CleanStep-IsLive (resumes op before behind s e h) v =
    rw resume_again (attempt-IsLive op (record s { woken = before ++ behind }) h v.writes)
CleanStep-IsLive (cancels op before behind s e) v = rw resume_cancelled (
    unfold complete in
    record {
      writes = v.writes;
      wakes = λ free some_wait. v.wakes free (is_nil-remove before behind op s.waiting e);
    })
CleanStep-IsLive (ends w before behind ec cancelled s e h) v =
    unfold write_end in finish-IsLive w w.op.kind ec cancelled _ h

-- In every history of clean events, from a state that is live: while the buffer is in use a write
-- is under way, and where it is free and operations wait for it, one of them was woken.
pub CleanReach-IsLive : {s t : Sender} → IsLive s → CleanReach s t → IsLive t
CleanReach-IsLive v here = v
CleanReach-IsLive v (next r st) = CleanStep-IsLive st (CleanReach-IsLive v r)
