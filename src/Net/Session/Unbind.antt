-- ===== src/Net/Session/Unbind.antt =====
-- The graceful end of a session: unbind, and the response to it.
use smpp.Common.{ℕ, suc, ◌≡◌, refl, ap, ◌∙◌, arith, [], ◌++◌, some, false}
use smpp.Exceptions.{Bytes}
use smpp.CommandId.{CommandId}
use smpp.CommandId
use smpp.Header.{Header, serialize_header}
use smpp.Header.RoundTrip.{IsU32}
use smpp.Net.FlatBuffer.{contents}
use smpp.Net.FlatBuffer.Invariant.{IsBuffer}
use smpp.Net.Session.{no_error, unbinded}
use smpp.Net.Session.Sequence.{next_sequence_number}
use smpp.Net.Session.Send.{
  SendOp, Sender, command, header_space, attempt, proceed, send_unbind, start_write,
}
use smpp.Net.Session.Send.Lock.{next_sequence_number-IsU32}
use smpp.Net.Session.Receive.{
  Receiver, sends, closes, header, consumed, receive_loop, after_send_unbind_resp,
}
use smpp.Net.Session.Receive.Framing.{
  header_lem, contents-consumed, receive_loop-dispatch, dispatch-unbind, dispatch-unbind_resp,
  after_send_unbind_resp-consumed,
}
use smpp.Net.Session.Connection.Frames.{command_header, command-IsFrame, deserialize_header-command}

-- The operation that answers an unbind.
abbrev pub unbind_resp_op : ℕ → ℕ → SendOp
unbind_resp_op id number = record { id = id; kind = command CommandId.unbind_resp number }

-- An operation that finds the buffer free writes its command.
attempt-command :
    (id command_id number : ℕ) (s : Sender)
    → s.send_buf ≡ []
    → (attempt (record { id = id; kind = command command_id number }) s).send_buf
      ≡ serialize_header header_space (command_header command_id number)
unfolding attempt proceed start_write
attempt-command id command_id number s e = rw e refl

-- A command at the head of the buffer, by its header.
header-command :
    (command_id number : ℕ) (r : Receiver) (rest : Bytes)
    → IsU32 command_id
    → IsU32 number
    → IsBuffer r.receive_buf
    → contents r.receive_buf
      ≡ serialize_header header_space (command_header command_id number) ++ rest
    → header r ≡ command_header command_id number
header-command command_id number r rest c n v e =
    header_lem r v _ rest (command-IsFrame command_id number c n) e
    ∙ deserialize_header-command command_id number c n

-- What an async_send_unbind writes in a session that sends nothing else is answered by the receive
-- operation of the other session with an unbind_resp of the same number; once that went out, the
-- operation ends with unbinded and a closed socket, and the bytes that the answer writes, where
-- the other session sends nothing else, end the receive operation of the first session in the same
-- way. Both take the command off their buffer and nothing else. Both operations have the whole
-- command at the head of the buffer and do not wait for more bytes.
pub send_unbind-unbinded :
    (id answer : ℕ) (s peer : Sender) (fuel : ℕ) (r other : Receiver) (rest left : Bytes)
    → s.send_buf ≡ []
    → peer.send_buf ≡ []
    → IsBuffer r.receive_buf
    → IsBuffer other.receive_buf
    → r.needs_more ≡ false
    → other.needs_more ≡ false
    → contents other.receive_buf ≡ (send_unbind id s).send_buf ++ rest
    → contents r.receive_buf
      ≡ (attempt (unbind_resp_op answer (next_sequence_number s.sequence_number)) peer).send_buf
        ++ left
    → (receive_loop (suc fuel) other
        ≡ some (sends other CommandId.unbind_resp (some (next_sequence_number s.sequence_number))))
      × (after_send_unbind_resp no_error other ≡ some (closes (consumed other) unbinded))
      × (contents (consumed other).receive_buf ≡ rest)
      × (receive_loop (suc fuel) r ≡ some (closes (consumed r) unbinded))
      × (contents (consumed r).receive_buf ≡ left)
unfolding send_unbind
send_unbind-unbinded id answer s peer fuel r other rest left a b v w m p there here =
    let number = next_sequence_number s.sequence_number in
    let n = next_sequence_number-IsU32 s.sequence_number in
    let arrives = there ∙ ap (λ xs. xs ++ rest) (attempt-command id CommandId.unbind number _ a) in
    let returns =
      here ∙ ap (λ xs. xs ++ left) (attempt-command answer CommandId.unbind_resp number peer b) in
    let unbind_header =
      header-command CommandId.unbind number other rest (omega arith) n w arrives in
    let resp_header =
      header-command CommandId.unbind_resp number r left (omega arith) n v returns in
    let asked = command-IsFrame CommandId.unbind number (omega arith) n in
    let answered = command-IsFrame CommandId.unbind_resp number (omega arith) n in
    (
      receive_loop-dispatch other w _ rest asked fuel p arrives
          ∙ dispatch-unbind other _ (ap (λ (h : Header). h.command_id) unbind_header)
          ∙ ap (λ (h : Header). some (sends other CommandId.unbind_resp (some h.sequence_number)))
              unbind_header,
      after_send_unbind_resp-consumed other,
      contents-consumed other w _ rest asked arrives,
      receive_loop-dispatch r v _ left answered fuel m returns
          ∙ dispatch-unbind_resp r _ (ap (λ (h : Header). h.command_id) resp_header),
      contents-consumed r v _ left answered returns,
    )
