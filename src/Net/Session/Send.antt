-- ===== src/Net/Session/Send.antt =====
-- The send operations of session.hpp: async_send for requests and for responses, and
-- async_send_command. They share `send_buf_`, which is not empty while one of them writes, and
-- wait for one another on the timer `send_cv_`. A handler is a function on the state; what
-- boost::asio does in between is the relation `Step`.
pub mod Lock
pub mod Handlers
pub mod Wakeups
pub mod Faults
pub mod Once
pub mod Effects
use smpp.Common.{
  ℕ, ◌%◌, ◌^◌, Bool, true, false, not, ◌&&◌, ◌||◌, if◌then◌else◌, List, [], ◌∷◌, ◌++◌,
}
use smpp.Common.{Option, none, some, length, ◌≡◌, ◌+◌, ◌<◌, ◌⊎◌}
use smpp.Header.RoundTrip.{IsU32}
use smpp.Exceptions.{Bytes, Exception, Result, ok, throws, stuck}
use smpp.CommandId.{CommandId}
use smpp.CommandId
use smpp.Header.{Header, header_length, rok, serialize_header}
use smpp.Net.Session.{
  ErrorCode, no_error, operation_aborted, serialization_failed, enquire_link_timeout,
}
use smpp.Net.Session.{is_aborted, is_error}
use smpp.Net.Session.Sequence.{next_sequence_number}

-- What an operation sends: a command with the header alone, a request, or a response with the
-- number and the status that the caller gives. The function is `serialize_to` on the PDU.
pub data Kind : Type 0 where
  command : CommandId → ℕ → Kind
  request : CommandId → (Bytes → Result Bytes) → Kind
  response : CommandId → (Bytes → Result Bytes) → ℕ → ℕ → Kind

pub record SendOp : Type 0 where
  pub id : ℕ
  pub kind : Kind

-- An asio::async_write that is under way: the operation, the number that it will complete with,
-- and the bytes that it was given.
pub record Write : Type 0 where
  pub op : SendOp
  pub sequence_number : ℕ
  pub frame : Bytes

-- How an operation completed.
pub record Completion : Type 0 where
  pub id : ℕ
  pub ec : ErrorCode
  pub sequence_number : ℕ

-- The members of the session that the operations use, the operations themselves by what they wait
-- for, and what they have done.
pub record Sender : Type 0 where
  pub send_buf : Bytes
  pub sequence_number : ℕ
  pub waiting : List SendOp
  pub woken : List SendOp
  pub writing : List Write
  pub wire : List Bytes
  pub completed : List Completion

abbrev pub new_sender : Sender
new_sender = record {
  send_buf = [];
  sequence_number = 0;
  waiting = [];
  woken = [];
  writing = [];
  wire = [];
  completed = [];
}

abbrev pub is_empty : Bytes → Bool
is_empty [] = true
is_empty (b ∷ bs) = false

-- `send_buf_.resize(header_length)` on the empty vector.
abbrev pub header_space : Bytes
header_space = 0 ∷ 0 ∷ 0 ∷ 0 ∷ 0 ∷ 0 ∷ 0 ∷ 0 ∷ 0 ∷ 0 ∷ 0 ∷ 0 ∷ 0 ∷ 0 ∷ 0 ∷ 0 ∷ []

unfoldable pub complete : ℕ → ErrorCode → ℕ → Sender → Sender
complete id ec number s = record s {
  completed = s.completed ++ (record { id = id; ec = ec; sequence_number = number } ∷ []);
}

-- The write is started on the buffer.
unfoldable pub start_write : SendOp → ℕ → Bytes → Sender → Sender
start_write op number frame s = record s {
  send_buf = frame;
  writing = s.writing ++ (record { op = op; sequence_number = number; frame = frame } ∷ []);
}

-- The code between the loop and the write, for a PDU that was or was not serialized. The first
-- number goes into the header, and the operation completes with the second.
unfoldable pub send_serialized : SendOp → CommandId → ℕ → ℕ → ℕ → Result Bytes → Sender → Sender
unfolding complete start_write
send_serialized op command_id number status reported (ok vec) s =
    start_write op reported
      (serialize_header vec (record {
        command_length = length vec % 2 ^ 32;
        command_id = command_id;
        command_status = status;
        sequence_number = number;
      }))
      s
send_serialized op command_id number status reported (throws e) s =
    complete op.id serialization_failed 0 (record s { send_buf = [] })
send_serialized op command_id number status reported stuck s = s

-- A request takes a number only once it is serialized.
pub numbered : Result Bytes → ℕ → ℕ
numbered (ok vec) n = next_sequence_number n
numbered (throws e) n = n
numbered stuck n = n

-- The code behind the loop, which is reached with an empty buffer.
unfoldable pub proceed : SendOp → Kind → Sender → Sender
unfolding send_serialized numbered
proceed op (command command_id number) s =
    start_write op 0
      (serialize_header header_space (record {
        command_length = header_length;
        command_id = command_id;
        command_status = rok;
        sequence_number = number;
      }))
      s
proceed op (request command_id serialize) s =
    let body = serialize header_space in
    let number = numbered body s.sequence_number in
    send_serialized op command_id number rok number body (record s { sequence_number = number })
proceed op (response command_id serialize number status) s =
    send_serialized op command_id number status 0 (serialize header_space) s

-- The head of the loop: another operation may be writing.
unfoldable pub attempt : SendOp → Sender → Sender
unfolding proceed
attempt op s =
    if is_empty s.send_buf
    then proceed op op.kind s
    else record s { waiting = s.waiting ++ (op ∷ []) }

-- async_send_unbind takes its number when it is called, before it waits for the buffer.
unfoldable pub send_unbind : ℕ → Sender → Sender
send_unbind id s =
    let number = next_sequence_number s.sequence_number in
    attempt (record { id = id; kind = command CommandId.unbind number })
      (record s { sequence_number = number })

-- The completion of `send_cv_.async_wait`.
unfoldable pub resume : SendOp → ErrorCode → Bool → Sender → Sender
unfolding attempt complete
resume op ec cancelled s =
    if not (is_aborted ec) || cancelled then complete op.id ec 0 s else attempt op s

-- `send_cv_.cancel_one()` makes the wait complete that began first.
unfoldable pub cancel_one : Sender → Sender
cancel_one s = elim s.waiting [
  | [] ↦ s
  | op ∷ ops ↦ record s { waiting = ops; woken = s.woken ++ (op ∷ []) }
]

unfoldable pub release : SendOp → ErrorCode → ℕ → Sender → Sender
unfolding cancel_one complete
release op ec number s = complete op.id ec number (cancel_one (record s { send_buf = [] }))

-- The completion of asio::async_write. A command is written under asio::cancel_after.
unfoldable pub finish : Write → Kind → ErrorCode → Bool → Sender → Sender
unfolding release complete
finish w (command command_id number) ec cancelled s =
    if is_aborted ec && not cancelled
    then complete w.op.id enquire_link_timeout 0 s
    else release w.op ec 0 s
finish w (request command_id serialize) ec cancelled s = release w.op ec w.sequence_number s
finish w (response command_id serialize number status) ec cancelled s = release w.op ec 0 s

-- Without an error the whole buffer went out.
abbrev pub written : ErrorCode → Bytes → List Bytes → List Bytes
written no_error frame wire = wire ++ (frame ∷ [])
written ec frame wire = wire

unfoldable pub write_end : Write → ErrorCode → Bool → Sender → Sender
unfolding finish
write_end w ec cancelled s =
    finish w w.op.kind ec cancelled (record s { wire = written ec s.send_buf s.wire })

-- Serialization appends to the space for the header a body that a uint32_t can count, or throws.
abbrev pub IsSerializer : (Bytes → Result Bytes) → Type 0
IsSerializer serialize =
    ((body : Bytes) × (serialize header_space ≡ ok (header_space ++ body))
      × (length body + header_length < 2 ^ 32))
    ⊎ ((e : Exception) × (serialize header_space ≡ throws e))

-- The ids, numbers and statuses are uint32_t.
abbrev pub IsKind : Kind → Type 0
IsKind (command command_id number) = IsU32 command_id × IsU32 number
IsKind (request command_id serialize) = IsU32 command_id × IsSerializer serialize
IsKind (response command_id serialize number status) =
    IsU32 command_id × IsSerializer serialize × IsU32 number × IsU32 status

abbrev pub IsOp : SendOp → Type 0
IsOp op = IsKind op.kind

-- The events: a call, the completion of a wait that `cancel_one` ended or the caller cancelled, and
-- the completion of a write.
pub data Step : Sender → Sender → Type 0 where
  starts : (op : SendOp) (s : Sender) → IsOp op → Step s (attempt op s)
  unbinds : (id : ℕ) (s : Sender) → Step s (send_unbind id s)
  resumes :
      (op : SendOp) (before behind : List SendOp) (cancelled : Bool) (s : Sender)
      → s.woken ≡ before ++ (op ∷ behind)
      → Step s (resume op operation_aborted cancelled (record s { woken = before ++ behind }))
  cancels :
      (op : SendOp) (before behind : List SendOp) (s : Sender)
      → s.waiting ≡ before ++ (op ∷ behind)
      → Step s (resume op operation_aborted true (record s { waiting = before ++ behind }))
  ends :
      (w : Write) (before behind : List Write) (ec : ErrorCode) (cancelled : Bool) (s : Sender)
      → s.writing ≡ before ++ (w ∷ behind)
      → Step s (write_end w ec cancelled (record s { writing = before ++ behind }))

pub data Reach (s : Sender) : Sender → Type 0 where
  here : Reach s s
  next : {t u : Sender} → Reach s t → Step t u → Reach s u
