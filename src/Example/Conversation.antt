-- ===== src/Example/Conversation.antt =====
-- The two programs of example/, whose sessions are joined.
pub mod Shapes
pub mod Says
pub mod Fine
use smpp.Common.{ℕ, suc, ◌≡◌, List, [], ◌∷◌, ◌++◌, map}
use smpp.Exceptions.{Bytes, ok}
use smpp.Header.{rok}
use smpp.Net.FlatBuffer.{FlatBuffer}
use smpp.Net.PduVariant.{
  bind_transceiver_pdu, bind_transceiver_resp_pdu, submit_sm_pdu, submit_sm_resp_pdu,
}
use smpp.Net.Session.Stream.{Delivery}
use smpp.Net.Session.Connection.{Message}
use smpp.Net.Session.Pair.{Endpoint, new_endpoint, arriving}
use smpp.Example.Program.{Thread, at, Observes, Plays}
use smpp.Example.Client.{Client, connected, client, bind_request, submit_request}
use smpp.Example.Server.{Server, accepted, server, bind_response, submit_response}

-- The histories of a client and the server that accepted it.
pub data Converses (ours theirs : ℕ → Message) (total : ℕ) (b c : FlatBuffer)
    : Endpoint → Thread Client → Endpoint → Thread Server → Type 0 where
  opens :
      Converses ours theirs total b c
        (new_endpoint (suc total) b)
        (at connected)
        (new_endpoint (suc total) c)
        (at accepted)
  client_plays :
      {x y z : Endpoint} {t u : Thread Client} {v : Thread Server} {frames : List Bytes}
      → Converses ours theirs total b c x t y v
      → Plays client ours total x t frames z u
      → Converses ours theirs total b c z u (arriving frames y) v
  client_observes :
      {x y : Endpoint} {t u : Thread Client} {v : Thread Server}
      → Converses ours theirs total b c x t y v
      → Observes client x t u
      → Converses ours theirs total b c x u y v
  server_plays :
      {x y z : Endpoint} {t : Thread Client} {u v : Thread Server} {frames : List Bytes}
      → Converses ours theirs total b c x t y u
      → Plays server theirs total y u frames z v
      → Converses ours theirs total b c (arriving frames x) t z v
  server_observes :
      {x y : Endpoint} {t : Thread Client} {u v : Thread Server}
      → Converses ours theirs total b c x t y u
      → Observes server y u v
      → Converses ours theirs total b c x t y v

-- The responses to the PDUs that a server is given: to a bind, and to submits behind it.
abbrev pub submit_answer : Delivery → Delivery
submit_answer (pdu, number, status) = (ok (submit_sm_resp_pdu submit_response), number, rok)

abbrev pub answers : List Delivery → List Delivery
answers [] = []
answers ((pdu, number, status) ∷ ds) =
    (ok (bind_transceiver_resp_pdu bind_response), number, rok) ∷ map submit_answer ds
