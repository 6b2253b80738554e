-- ===== src/Net/Session/Silence/Prefix.antt =====
-- The caller is given the PDUs of the stream in their order, whatever times out in between.
use smpp.Common.{Bool, false, ℕ, suc, ◌≡◌, refl, sym, ap, subst, ◌∙◌, List, [], ◌∷◌, ◌++◌}
use smpp.Common.{append_assoc, Option}
use smpp.Exceptions.{Bytes}
use smpp.Net.FlatBuffer.{FlatBuffer, capacity, contents}
use smpp.Net.FlatBuffer.Invariant.{IsBuffer}
use smpp.Net.Session.Receive.{Effect, consumed, new_receiver}
use smpp.Net.Session.Receive.Framing.{after_send_enquire_link_resp-consumed}
use smpp.Net.Session.Receive.Keepalive.{after_read-times_out, after_send_enquire_link-receive_loop}
use smpp.Net.Session.Receive.Reading.{after_read-received}
use smpp.Net.Session.Stream.{Delivery, room}
use smpp.Net.Session.Stream.Sent.{Sent, stream}
use smpp.Net.Session.Stream.Order.{again-IsReading}
use smpp.Net.Session.Silence.{Hears, begins, arrives, times_out, asked, answered, posted, given_to}
use smpp.Net.Session.Silence.Good.{IsPrefix, Runs, Good, Good-IsPrefix, Good-Runs, Sent-At}
use smpp.Net.Session.Silence.Loop.{At-Good, times_out-Good, after_post-Good}

module _ (total : ℕ) (leaving : Bool) (ds : List Delivery) where
  Hears-Good :
      {b : FlatBuffer} {bytes later : Bytes} {e : Option Effect} {given : List Delivery}
      {frames : List Bytes}
      → IsBuffer b
      → capacity b ≡ total
      → Sent total leaving frames ds
      → contents b ++ bytes ≡ stream frames
      → Hears (suc total) b bytes later e given
      → Good total leaving ds later e given
  Hears-Good {b} {bytes} v c s whole begins = At-Good total leaving ds bytes (new_receiver b) [] (
      Sent-At total leaving ds s (record { is_buffer = v; same_capacity = c; not_more = refl })
        whole refl)
  Hears-Good v c s whole (arrives {given} r chunk later any fits h) =
      let a = Hears-Good v c s whole h in
      let (next, read, y, more) =
        after_read-received total (suc total) chunk r a.is_reading any (unfold room in fits) in
      subst (λ x. Good total leaving ds later x given) (sym read)
        (At-Good total leaving ds later next given (
          Sent-At total leaving ds a.is_sent y
            (ap (λ xs. xs ++ later) more
              ∙ append_assoc (contents r.receive_buf) chunk later
              ∙ a.same_bytes)
            a.same_pdus))
  Hears-Good v c s whole (times_out {given} {later} r h) =
      subst (λ x. Good total leaving ds later x given) (sym (after_read-times_out (suc total) r))
        (times_out-Good total leaving ds later r given r.pending_enquire_link
          (Hears-Good v c s whole h))
  Hears-Good v c s whole (asked {given} {later} r number h) =
      subst (λ x. Good total leaving ds later x given)
        (sym (after_send_enquire_link-receive_loop (suc total) r))
        (At-Good total leaving ds later r given ((Hears-Good v c s whole h).0 refl))
  Hears-Good v c s whole (answered {given} {later} r number h) =
      subst (λ x. Good total leaving ds later x given)
        (sym (after_send_enquire_link_resp-consumed (suc total) r))
        (At-Good total leaving ds later (consumed r) given ((Hears-Good v c s whole h).1 refl))
  Hears-Good v c s whole (posted {given} {later} r h) =
      after_post-Good total leaving ds later r given (Hears-Good v c s whole h)
  Hears-Good v c s whole (given_to {given} {later} r p number status h) =
      let a = Hears-Good v c s whole h in
      At-Good total leaving ds later (new_receiver r.receive_buf)
        (given ++ ((p, number, status) ∷ []))
        (Sent-At total leaving ds a.is_sent (again-IsReading total r a.is_reading) a.same_bytes
          a.same_pdus)

-- Whatever times out while a stream of PDUs, enquire_links and their responses arrives in pieces,
-- the PDUs that the caller was given are at any time the first ones of the stream, in their order, and
-- the operation runs.
pub Hears-IsPrefix :
    {b : FlatBuffer} {bytes later : Bytes} {e : Option Effect} {given ds : List Delivery}
    {frames : List Bytes}
    → IsBuffer b
    → Sent (capacity b) false frames ds
    → contents b ++ bytes ≡ stream frames
    → Hears (suc (capacity b)) b bytes later e given
    → IsPrefix given ds × Runs e
Hears-IsPrefix {b} {later = later} {e} {given} {ds} v s whole h =
    let good = Hears-Good (capacity b) false ds v refl s whole h in
    (
      Good-IsPrefix (capacity b) false ds later e given good,
      Good-Runs (capacity b) ds later e given good,
    )
