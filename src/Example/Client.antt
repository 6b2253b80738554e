-- ===== src/Example/Client.antt =====
-- example/client.cpp: the coroutine client, behind the connection of the socket.
use smpp.Common.{Bool, true, false, ℕ, suc, ◌+◌, ◌/◌, ◌%◌, [], ◌∷◌, ltb, if◌then◌else◌, some}
use smpp.Exceptions.{Bytes, Result, ok}
use smpp.Pdu.Bind.{BindTransceiver, bind_transceiver}
use smpp.Pdu.Submit.{SubmitSm, submit_sm}
use smpp.Net.PduVariant.{
  PduVariant, bind_transceiver_pdu, bind_transceiver_resp_pdu, submit_sm_pdu, submit_sm_resp_pdu,
}
use smpp.Net.Session.Connection.{request_of}
use smpp.Example.Program.{
  Action, async_send, async_send_unbind, async_receive, get, async_wait, co_return,
}

-- std::to_string on the numbers of four digits.
abbrev pub to_string : ℕ → Bytes
to_string n =
    (0x30 + n / 1000) ∷ (0x30 + n / 100 % 10) ∷ (0x30 + n / 10 % 10) ∷ (0x30 + n % 10) ∷ []

-- "client_01"
abbrev pub bind_request : BindTransceiver
bind_request = record bind_transceiver.initial {
  system_id = 0x63 ∷ 0x6c ∷ 0x69 ∷ 0x65 ∷ 0x6e ∷ 0x74 ∷ 0x5f ∷ 0x30 ∷ 0x31 ∷ [];
}

abbrev pub submit_request : ℕ → SubmitSm
submit_request i = record submit_sm.initial { dest_addr = to_string (1000 + i) }

-- The points at which the coroutine awaits something.
pub data Client : Type 0 where
  connected : Client
  binding : Client
  round : ℕ → Client
  asking : ℕ → Client
  resting : ℕ → Client
  closing : Client
  returned : Client

-- The alternatives that the coroutine takes by `std::get`.
abbrev pub is_bind_transceiver_resp : Result PduVariant → Bool
is_bind_transceiver_resp (ok (bind_transceiver_resp_pdu pdu)) = true
is_bind_transceiver_resp pdu = false

abbrev pub is_submit_sm_resp : Result PduVariant → Bool
is_submit_sm_resp (ok (submit_sm_resp_pdu pdu)) = true
is_submit_sm_resp pdu = false

unfoldable pub client : Client → Action Client
client connected = async_send (request_of (bind_transceiver_pdu bind_request)) binding
client binding = async_receive (λ pdu number. get (is_bind_transceiver_resp pdu) (round 0))
client (round i) =
    if ltb i 3
    then async_send (request_of (submit_sm_pdu (submit_request i))) (asking i)
    else async_send_unbind closing
client (asking i) = async_receive (λ pdu number. get (is_submit_sm_resp pdu) (resting i))
client (resting i) = async_wait (round (suc i))
client closing = async_receive (λ pdu number. some returned)
client returned = co_return
