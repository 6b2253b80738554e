-- ===== src/Example/Conversation/Says.antt =====
-- Both programs follow their texts, whatever the two sessions do.
use smpp.Common.{ℕ, ◌<◌, ◌^◌, ◌≤◌, refl, List}
use smpp.Exceptions.{Bytes}
use smpp.Header.{header_length}
use smpp.Net.FlatBuffer.{FlatBuffer}
use smpp.Net.Session.Connection.{Message}
use smpp.Net.Session.Pair.{Endpoint, Meets, opens, we_act, they_act, arriving}
use smpp.Net.Session.Pair.Prefix.{IsEmptyBuffer, Meets-IsEnd}
use smpp.Example.Program.{Thread, Plays-Acts}
use smpp.Example.Program.Trace.{begins, Says, OwnCommand}
use smpp.Example.Program.Background.{Kept}
use smpp.Example.Program.Follows.{Kept-Says, Observes-Says, Plays-Says}
use smpp.Example.Client.{Client, connected, client}
use smpp.Example.Server.{Server, accepted, server}
use smpp.Example.Conversation.{
  Converses, client_plays, client_observes, server_plays, server_observes, answers,
}
use smpp.Example.Conversation

arrived-Kept :
    (message : ℕ → Message) (frames : List Bytes) (x : Endpoint)
    → OwnCommand message x.operation
    → Kept message x (arriving frames x)
arrived-Kept message frames x own = record {
  same_given = refl;
  quiet = λ q. (q, refl);
  awaits = λ id before p a. a;
  own = own;
}

module _ (ours theirs : ℕ → Message) (total : ℕ) (b c : FlatBuffer) where
  -- The conversation is a history of the two sessions.
  pub Converses-Meets :
      {x y : Endpoint} {t : Thread Client} {u : Thread Server}
      → Converses ours theirs total b c x t y u
      → Meets ours theirs total b c x y
  Converses-Meets Conversation.opens = opens
  Converses-Meets (client_plays h p) = we_act (Converses-Meets h) (Plays-Acts client ours total p)
  Converses-Meets (client_observes h o) = Converses-Meets h
  Converses-Meets (server_plays h p) =
      they_act (Converses-Meets h) (Plays-Acts server theirs total p)
  Converses-Meets (server_observes h o) = Converses-Meets h

  module _ (small : total < 2 ^ 32) (long : header_length ≤ total) (v : IsEmptyBuffer total b)
      (w : IsEmptyBuffer total c) where
    abbrev pub Both : Endpoint → Thread Client → Endpoint → Thread Server → Type 0
    Both x t y u =
        (Says client connected ours x t × OwnCommand ours x.operation)
        × (Says server accepted theirs y u × OwnCommand theirs y.operation)

    pub Converses-Says :
        {x y : Endpoint} {t : Thread Client} {u : Thread Server}
        → Converses ours theirs total b c x t y u
        → Both x t y u
    Converses-Says Conversation.opens = (
      ((begins, record { waiting_ops = tt; woken_ops = tt; writing_ops = tt }), tt),
      ((begins, record { waiting_ops = tt; woken_ops = tt; writing_ops = tt }), tt),
    )
    Converses-Says (client_plays {x} {y} {z} {t} {u} {v = r} {frames} h p) =
        let (us, (says, own)) = Converses-Says h in
        let (end, other) = Meets-IsEnd ours theirs total small long b c v w (Converses-Meets h) in
        (
          Plays-Says client connected ours total small long p end.speaks.0 us,
          (
            Kept-Says server accepted theirs y (arriving frames y) r
                (arrived-Kept theirs frames y own) says,
            own,
          ),
        )
    Converses-Says (client_observes {x} h o) =
        let ((says, own), them) = Converses-Says h in
        ((Observes-Says client connected ours x o says, own), them)
    Converses-Says (server_plays {x} {y} {z} {t} {u} {frames = frames} h p) =
        let ((says, own), them) = Converses-Says h in
        let (other, end) = Meets-IsEnd ours theirs total small long b c v w (Converses-Meets h) in
        (
          (
            Kept-Says client connected ours x (arriving frames x) t (arrived-Kept ours frames x own)
                says,
            own,
          ),
          Plays-Says server accepted theirs total small long p end.speaks.0 them,
        )
    Converses-Says (server_observes {x} {y} h o) =
        let (us, (says, own)) = Converses-Says h in
        (us, (Observes-Says server accepted theirs y o says, own))
