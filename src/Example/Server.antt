-- ===== src/Example/Server.antt =====
-- example/server.cpp: the coroutine handle_session, for each socket that is accepted.
use smpp.Common.{Bool, true, false, ℕ, [], ◌∷◌}
use smpp.Exceptions.{Result, ok}
use smpp.Header.{rok}
use smpp.Pdu.BindResp.{BindTransceiverResp, bind_transceiver_resp}
use smpp.Pdu.Submit.{SubmitSmResp, submit_sm_resp}
use smpp.Net.PduVariant.{
  PduVariant, bind_transceiver_pdu, bind_transceiver_resp_pdu, submit_sm_pdu, submit_sm_resp_pdu,
}
use smpp.Net.Session.Connection.{response_of}
use smpp.Example.Program.{Action, async_send, async_receive, get}

-- "server_01"
abbrev pub bind_response : BindTransceiverResp
bind_response = record bind_transceiver_resp.initial {
  system_id = 0x73 ∷ 0x65 ∷ 0x72 ∷ 0x76 ∷ 0x65 ∷ 0x72 ∷ 0x5f ∷ 0x30 ∷ 0x31 ∷ [];
}

-- "123"
abbrev pub submit_response : SubmitSmResp
submit_response = record submit_sm_resp.initial { message_id = 0x31 ∷ 0x32 ∷ 0x33 ∷ [] }

-- The points at which the coroutine awaits something; a number is that of the request.
pub data Server : Type 0 where
  accepted : Server
  answering : ℕ → Server
  serving : Server
  responding : ℕ → Server

-- The alternatives that the coroutine takes by `std::get`.
abbrev pub is_bind_transceiver : Result PduVariant → Bool
is_bind_transceiver (ok (bind_transceiver_pdu pdu)) = true
is_bind_transceiver pdu = false

abbrev pub is_submit_sm : Result PduVariant → Bool
is_submit_sm (ok (submit_sm_pdu pdu)) = true
is_submit_sm pdu = false

unfoldable pub server : Server → Action Server
server accepted = async_receive (λ pdu number. get (is_bind_transceiver pdu) (answering number))
server (answering number) =
    async_send (response_of (bind_transceiver_resp_pdu bind_response) number rok) serving
server serving = async_receive (λ pdu number. get (is_submit_sm pdu) (responding number))
server (responding number) =
    async_send (response_of (submit_sm_resp_pdu submit_response) number rok) serving
