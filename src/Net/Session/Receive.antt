-- ===== src/Net/Session/Receive.antt =====
-- session::receive_op of session.hpp. `receive_loop` runs the body of its loop until the operation
-- waits or ends; a function named `after_...` is what follows a wait.
pub mod Framing
pub mod Fuel
pub mod Rounds
pub mod Keepalive
pub mod Reading
use smpp.Common.{ℕ, zero, suc, ◌-◌, ltb, ◌==◌, Bool, true, false, not, ◌&&◌, if◌then◌else◌}
use smpp.Common.{Option, none, some, List, [], ◌∷◌, length, take, drop}
use smpp.Exceptions.{Bytes, Exception, Result, ok, throws, stuck}
use smpp.CommandId.{CommandId}
use smpp.CommandId
use smpp.Header.{Header, header_length, deserialize_header}
use smpp.Net.FlatBuffer.{
  FlatBuffer, capacity, size, contents, prepare, write_prepared, commit, consume,
}
use smpp.Net.PduVariant.{PduVariant, receive_pdu}
use smpp.Net.Session.{ErrorCode, enquire_link_timeout, unbinded, is_aborted, is_error}

-- The session's buffer and the members of the operation, but for the last header, which is that of
-- the buffer whenever it is used.
pub record Receiver : Type 0 where
  pub receive_buf : FlatBuffer
  pub needs_more : Bool
  pub needs_post : Bool
  pub pending_enquire_link : Bool

-- A new operation on the session's buffer.
abbrev pub new_receiver : FlatBuffer → Receiver
new_receiver b = record {
  receive_buf = b;
  needs_more = false;
  needs_post = true;
  pending_enquire_link = false;
}

-- What the operation waits for, or how it ends: async_read_some into the room that was prepared,
-- async_send_command with the number given or else the next one, asio::post; a PDU with its
-- sequence_number and status, an error without or with the socket shut down before; an exception
-- that leaves the operation, and a span whose end lies before its begin, which is undefined.
pub data Effect : Type 0 where
  reads posts : Receiver → Effect
  sends : Receiver → CommandId → Option ℕ → Effect
  delivers : Receiver → Result PduVariant → ℕ → ℕ → Effect
  fails closes : Receiver → ErrorCode → Effect
  leaves : Exception → Effect
  undefined_span : Effect

unfoldable pub header : Receiver → Header
header r = deserialize_header (contents r.receive_buf)

unfoldable pub consumed : Receiver → Receiver
unfolding header
consumed r = record r { receive_buf = consume (header r).command_length r.receive_buf }

-- The wait for more bytes.
unfoldable pub more : Receiver → Option Effect
more r = elim (prepare (capacity r.receive_buf - size r.receive_buf) r.receive_buf) [
  | ok b ↦ some (reads (record r { receive_buf = b; needs_more = false; needs_post = false }))
  | throws e ↦ some (leaves e)
  | stuck ↦ none
]

-- The code behind asio::post.
unfoldable pub after_post : Receiver → Option Effect
unfolding header consumed
after_post r =
    let h = header r in
    let whole = take h.command_length (contents r.receive_buf) in
    if ltb h.command_length header_length
    then some undefined_span
    else some (
        delivers (consumed r) (receive_pdu h.command_id whole (drop header_length whole))
          h.sequence_number h.command_status)

-- The code behind the two tests of the length; `rest` is what the next round does.
unfoldable pub dispatch : Option Effect → Receiver → Option Effect
unfolding header consumed after_post
dispatch rest r =
    let h = header r in
    if h.command_id == CommandId.enquire_link
    then some (sends r CommandId.enquire_link_resp (some h.sequence_number))
    else if h.command_id == CommandId.enquire_link_resp
    then rest
    else if h.command_id == CommandId.unbind
    then some (sends r CommandId.unbind_resp (some h.sequence_number))
    else if h.command_id == CommandId.unbind_resp
    then some (closes (consumed r) unbinded)
    else if r.needs_post
    then some (posts r)
    else after_post r

unfoldable pub receive_loop : ℕ → Receiver → Option Effect
unfolding header consumed more dispatch
receive_loop zero r = none
receive_loop (suc fuel) r =
    let rest = receive_loop fuel (consumed r) in
    if r.needs_more
    then more r
    else if ltb (size r.receive_buf) header_length
    then more r
    else if ltb (size r.receive_buf) (header r).command_length
    then more r
    else dispatch rest r

abbrev pub arrived : Bytes → Receiver → Receiver
arrived [] r = r
arrived (b ∷ bs) r = record r {
  receive_buf = commit (length (b ∷ bs)) (write_prepared (b ∷ bs) r.receive_buf);
  pending_enquire_link = false;
}

-- The completion of async_read_some, which asio::cancel_after may end.
unfoldable pub after_read : ℕ → Bytes → ErrorCode → Bool → Receiver → Option Effect
unfolding receive_loop
after_read fuel bytes ec cancelled old =
    let r = arrived bytes old in
    let rest = receive_loop fuel r in
    if is_aborted ec && not cancelled
    then if r.pending_enquire_link
      then some (sends r CommandId.unbind none)
      else some (sends (record r { pending_enquire_link = true }) CommandId.enquire_link none)
    else if is_error ec
    then some (fails r ec)
    else rest

-- The completion of async_send_command, by what was sent.
unfoldable pub after_send_unbind : Receiver → Option Effect
after_send_unbind r = some (closes r enquire_link_timeout)

unfoldable pub after_send_enquire_link : ℕ → ErrorCode → Receiver → Option Effect
unfolding receive_loop
after_send_enquire_link fuel ec r =
    let rest = receive_loop fuel r in if is_error ec then some (fails r ec) else rest

-- The error, if any, is not looked at.
unfoldable pub after_send_enquire_link_resp : ℕ → Receiver → Option Effect
unfolding receive_loop consumed
after_send_enquire_link_resp fuel r = receive_loop fuel (consumed r)

unfoldable pub after_send_unbind_resp : ErrorCode → Receiver → Option Effect
unfolding consumed
after_send_unbind_resp ec r =
    if is_error ec then some (fails r ec) else some (closes (consumed r) unbinded)
