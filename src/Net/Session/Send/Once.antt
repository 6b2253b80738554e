-- ===== src/Net/Session/Send/Once.antt =====
-- How often an operation is waiting, woken, writing or completed: as often as it was called.
use smpp.Common.{
  ℕ, ◌+◌, ◌≡◌, refl, ap, ◌∙◌, inl, inr, arith, Bool, true, not, ◌&&◌, ◌||◌, Bool-cases,
  if◌then◌else◌, ◌==◌, ◌⊎◌,
}
use smpp.Common.{List, [], ◌∷◌, ◌++◌, All-remove}
use smpp.Exceptions.{Bytes, Result}
use smpp.CommandId.{CommandId}
use smpp.Header.{rok}
use smpp.Net.Session.{
  ErrorCode, operation_aborted, serialization_failed, enquire_link_timeout, is_aborted,
}
use smpp.Net.Session.Send.{
  Kind, command, request, response, SendOp, Write, Completion, Sender, new_sender, is_empty,
  header_space, complete, start_write, send_serialized, numbered, proceed, attempt, send_unbind,
  resume, cancel_one, release, finish, write_end, IsSerializer, IsKind, IsOp, starts, unbinds,
  resumes, cancels, ends, Reach, here, next,
}
use smpp.Net.Session.Send.Lock.{next_sequence_number-IsU32}
use smpp.Net.Session.Send.Handlers.{Reach-IsSender, new_sender-IsSender}

-- The sum of the weights of the elements.
unfoldable pub sum_of {ℓ} : {A : Type ℓ} → (A → ℕ) → List A → ℕ
sum_of f [] = 0
sum_of f (x ∷ xs) = f x + sum_of f xs

pub sum_of-append {ℓ} :
    {A : Type ℓ} (f : A → ℕ) (xs ys : List A) → sum_of f (xs ++ ys) ≡ sum_of f xs + sum_of f ys
unfolding sum_of
sum_of-append f [] ys = omega arith
sum_of-append f (x ∷ xs) ys = omega (arith, sum_of-append f xs ys)

pub sum_of-remove {ℓ} :
    {A : Type ℓ} (f : A → ℕ) (before behind : List A) (x : A) (xs : List A)
    → xs ≡ before ++ (x ∷ behind)
    → sum_of f xs ≡ f x + sum_of f (before ++ behind)
unfolding sum_of
sum_of-remove f before behind x xs e =
    rw (e, sum_of-append f before (x ∷ behind), sum_of-append f before behind) (omega arith)

module _ (weight : ℕ → ℕ) where
  -- The operations that have not completed, and those that have, each by the weight of its id.
  unfoldable pub pending : Sender → ℕ
  unfolding sum_of
  pending s =
      sum_of (λ (op : SendOp). weight op.id) s.waiting
      + sum_of (λ (op : SendOp). weight op.id) s.woken
      + sum_of (λ (w : Write). weight w.op.id) s.writing

  unfoldable pub finished : Sender → ℕ
  unfolding sum_of
  finished s = sum_of (λ (c : Completion). weight c.id) s.completed

  -- The operations that were called.
  unfoldable pub called : {s t : Sender} → Reach s t → ℕ
  called here = 0
  called (next r (starts op s h)) = called r + weight op.id
  called (next r (unbinds id s)) = called r + weight id
  called (next r (resumes op before behind cancelled s e)) = called r
  called (next r (cancels op before behind s e)) = called r
  called (next r (ends w before behind ec cancelled s e)) = called r

  abbrev pub tally : Sender → ℕ
  tally s = pending s + finished s

  tally-complete :
      (id : ℕ) (ec : ErrorCode) (number : ℕ) (s : Sender)
      → tally (complete id ec number s) ≡ weight id + tally s
  unfolding complete pending finished
  tally-complete id ec number s =
      rw (sum_of-append (λ (c : Completion). weight c.id) s.completed _)
        (unfold sum_of in omega arith)

  tally-start_write :
      (op : SendOp) (number : ℕ) (frame : Bytes) (s : Sender)
      → tally (start_write op number frame s) ≡ weight op.id + tally s
  unfolding start_write pending finished
  tally-start_write op number frame s =
      rw (sum_of-append (λ (w : Write). weight w.op.id) s.writing _) (unfold sum_of in omega arith)

  -- A PDU is written, or its operation completes.
  tally-send_serialized :
      (op : SendOp) (command_id : CommandId) (number status reported : ℕ)
      (serialize : Bytes → Result Bytes) (s : Sender)
      → IsSerializer serialize
      → tally (send_serialized op command_id number status reported (serialize header_space) s)
        ≡ weight op.id + tally s
  tally-send_serialized op command_id number status reported serialize s (inl (body, e, short)) =
      rw e (unfold send_serialized in tally-start_write op reported _ s)
  tally-send_serialized op command_id number status reported serialize s (inr (x, e)) = rw e (
      unfold send_serialized in
      tally-complete op.id serialization_failed 0 (record s { send_buf = [] })
      ∙ (unfold pending finished in refl))

  tally-proceed :
      (op : SendOp) (kind : Kind) (s : Sender)
      → IsKind kind
      → tally (proceed op kind s) ≡ weight op.id + tally s
  unfolding proceed
  tally-proceed op (command command_id number) s h = tally-start_write op 0 _ s
  tally-proceed op (request command_id serialize) s h =
      let number = numbered (serialize header_space) s.sequence_number in
      tally-send_serialized op command_id number rok number serialize _ h.1
      ∙ (unfold pending finished in refl)
  tally-proceed op (response command_id serialize number status) s h =
      tally-send_serialized op command_id number status 0 serialize s h.1

  pub tally-attempt :
      (op : SendOp) (s : Sender) → IsOp op → tally (attempt op s) ≡ weight op.id + tally s
  unfolding attempt
  tally-attempt op s h = elim (Bool-cases (is_empty s.send_buf)) [
    | inl free ↦ rw free (tally-proceed op op.kind s h)
    | inr busy ↦ rw busy (
        unfold pending finished in
        rw (sum_of-append (λ (o : SendOp). weight o.id) s.waiting (op ∷ []))
          (unfold sum_of in omega arith))
  ]

  pub tally-resume :
      (op : SendOp) (ec : ErrorCode) (cancelled : Bool) (s : Sender)
      → IsOp op
      → tally (resume op ec cancelled s) ≡ weight op.id + tally s
  unfolding resume
  tally-resume op ec cancelled s h = elim (Bool-cases (not (is_aborted ec) || cancelled)) [
    | inl over ↦ rw over (tally-complete op.id ec 0 s)
    | inr again ↦ rw again (tally-attempt op s h)
  ]

  tally-cancel_one :
      (s : Sender) (ops : List SendOp) → s.waiting ≡ ops → tally (cancel_one s) ≡ tally s
  unfolding cancel_one pending finished
  tally-cancel_one s [] e =
      rw (e, cancel_one) (omega (arith, ap (sum_of (λ (o : SendOp). weight o.id)) e))
  tally-cancel_one s (op ∷ ops) e =
      rw (e, cancel_one, sum_of-append (λ (o : SendOp). weight o.id) s.woken (op ∷ []))
        (unfold sum_of in omega (arith, ap (sum_of (λ (o : SendOp). weight o.id)) e))

  tally-release :
      (op : SendOp) (ec : ErrorCode) (number : ℕ) (s : Sender)
      → tally (release op ec number s) ≡ weight op.id + tally s
  unfolding release
  tally-release op ec number s =
      tally-complete op.id ec number _
      ∙ ap (λ n. weight op.id + n)
          (tally-cancel_one (record s { send_buf = [] }) s.waiting refl
            ∙ (unfold pending finished in refl))

  tally-finish :
      (w : Write) (kind : Kind) (ec : ErrorCode) (cancelled : Bool) (s : Sender)
      → tally (finish w kind ec cancelled s) ≡ weight w.op.id + tally s
  unfolding finish
  tally-finish w (command command_id number) ec cancelled s =
      elim (Bool-cases (is_aborted ec && not cancelled)) [
        | inl late ↦ rw late (tally-complete w.op.id enquire_link_timeout 0 s)
        | inr in_time ↦ rw in_time (tally-release w.op ec 0 s)
      ]
  tally-finish w (request command_id serialize) ec cancelled s =
      tally-release w.op ec w.sequence_number s
  tally-finish w (response command_id serialize number status) ec cancelled s =
      tally-release w.op ec 0 s

  pub tally-write_end :
      (w : Write) (before behind : List Write) (ec : ErrorCode) (cancelled : Bool) (s : Sender)
      → s.writing ≡ before ++ (w ∷ behind)
      → tally (write_end w ec cancelled (record s { writing = before ++ behind })) ≡ tally s
  unfolding write_end
  tally-write_end w before behind ec cancelled s e =
      tally-finish w w.op.kind ec cancelled _
      ∙ (unfold pending finished in
          omega (arith, sum_of-remove (λ (x : Write). weight x.op.id) before behind w s.writing e))

  pub tally-woken :
      (op : SendOp) (before behind : List SendOp) (cancelled : Bool) (s : Sender)
      → s.woken ≡ before ++ (op ∷ behind)
      → IsOp op
      → tally (resume op operation_aborted cancelled (record s { woken = before ++ behind }))
        ≡ tally s
  tally-woken op before behind cancelled s e h =
      tally-resume op operation_aborted cancelled _ h
      ∙ (unfold pending finished in
          omega (arith, sum_of-remove (λ (o : SendOp). weight o.id) before behind op s.woken e))

  pub tally-cancelled :
      (op : SendOp) (before behind : List SendOp) (s : Sender)
      → s.waiting ≡ before ++ (op ∷ behind)
      → IsOp op
      → tally (resume op operation_aborted true (record s { waiting = before ++ behind })) ≡ tally s
  tally-cancelled op before behind s e h =
      tally-resume op operation_aborted true _ h
      ∙ (unfold pending finished in
          omega (arith, sum_of-remove (λ (o : SendOp). weight o.id) before behind op s.waiting e))

  tally-send_unbind : (id : ℕ) (s : Sender) → tally (send_unbind id s) ≡ weight id + tally s
  unfolding send_unbind
  tally-send_unbind id s =
      tally-attempt _ _ (omega arith, next_sequence_number-IsU32 s.sequence_number)
      ∙ (unfold pending finished in refl)

  -- Each call adds the weight of its id, and no other event changes the sum.
  pub called-tally : {t : Sender} (r : Reach new_sender t) → called r ≡ tally t
  unfolding called
  called-tally here = unfold pending finished sum_of in refl
  called-tally (next r (starts op s h)) = omega (arith, called-tally r, tally-attempt op s h)
  called-tally (next r (unbinds id s)) = omega (arith, called-tally r, tally-send_unbind id s)
  called-tally (next r (resumes op before behind cancelled s e)) =
      let v = Reach-IsSender new_sender-IsSender r in
      let (h, left) = All-remove IsOp before behind op s.woken e v.woken_ops in
      omega (arith, called-tally r, tally-woken op before behind cancelled s e h)
  called-tally (next r (cancels op before behind s e)) =
      let v = Reach-IsSender new_sender-IsSender r in
      let (h, left) = All-remove IsOp before behind op s.waiting e v.waiting_ops in
      omega (arith, called-tally r, tally-cancelled op before behind s e h)
  called-tally (next r (ends w before behind ec cancelled s e)) =
      omega (arith, called-tally r, tally-write_end w before behind ec cancelled s e)

-- The weight that counts one id.
abbrev pub only : ℕ → ℕ → ℕ
only k id = if id == k then 1 else 0

-- In every history of a new session, whatever the errors and the cancellations, an id that was given
-- to one call is that of exactly one operation, which either waits, was woken or writes, or has
-- completed.
pub called-once :
    (k : ℕ) {t : Sender} (r : Reach new_sender t)
    → called (only k) r ≡ 1
    → ((pending (only k) t ≡ 1) × (finished (only k) t ≡ 0))
      ⊎ ((pending (only k) t ≡ 0) × (finished (only k) t ≡ 1))
called-once k r e = ground (arith, called-tally (only k) r)
