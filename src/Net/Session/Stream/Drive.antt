-- ===== src/Net/Session/Stream/Drive.antt =====
-- What the caller is given in the end, whatever the fuel, once it is enough.
use smpp.Common.{
  ℕ, zero, suc, ◌≤◌, ◌≡◌, refl, ap, ◌∙◌, arith, List, [], ◌∷◌, take, drop, Option, some, false,
}
use smpp.Exceptions.{Bytes, Result}
use smpp.Net.PduVariant.{PduVariant}
use smpp.CommandId
use smpp.Net.Session.{no_error}
use smpp.Net.Session.Receive.{
  Receiver, Effect, reads, posts, sends, delivers, receive_loop, after_post, after_read,
  after_send_enquire_link_resp, new_receiver,
}
use smpp.Net.Session.Stream.{Delivery, read_size, drive}

module _ (schedule : Bytes → ℕ) (inner : ℕ) where
  -- Some fuel is enough, and so is any more.
  abbrev pub Delivers : Bytes → Option Effect → List Delivery → Type 0
  Delivers under_way effect ds =
      (k : ℕ) × ((fuel : ℕ) → k ≤ fuel → drive schedule inner fuel under_way effect ≡ ds)

  -- The effect comes to another one after one wait.
  later :
      (under_way after : Bytes) (effect next : Option Effect) (ds es : List Delivery)
      → (f : List Delivery → List Delivery) → f ds ≡ es
      → ((fuel : ℕ)
          → drive schedule inner (suc fuel) under_way effect
            ≡ f (drive schedule inner fuel after next))
      → Delivers after next ds
      → Delivers under_way effect es
  later under_way after effect next ds es f e step (k, enough) = (suc k, more)
    where
      more : (fuel : ℕ) → suc k ≤ fuel → drive schedule inner fuel under_way effect ≡ es
      more zero h = absurd (omega arith)
      more (suc fuel) h = step fuel ∙ ap f (enough fuel (omega arith)) ∙ e

  pub Delivers-waits : (r : Receiver) → Delivers [] (some (reads r)) []
  unfolding drive
  Delivers-waits r = (0, ends)
    where
      ends : (fuel : ℕ) → 0 ≤ fuel → drive schedule inner fuel [] (some (reads r)) ≡ []
      ends zero h = refl
      ends (suc fuel) h = refl

  pub Delivers-reads :
      (r : Receiver) (b : ℕ) (bs : Bytes) (ds : List Delivery)
      → Delivers
          (drop (read_size schedule (b ∷ bs) r.receive_buf) (b ∷ bs))
          (after_read inner
            (take (read_size schedule (b ∷ bs) r.receive_buf) (b ∷ bs))
            no_error
            false
            r)
          ds
      → Delivers (b ∷ bs) (some (reads r)) ds
  unfolding drive
  Delivers-reads r b bs ds d =
      later (b ∷ bs) _ (some (reads r)) _ ds ds (λ x. x) refl (λ fuel. refl) d

  pub Delivers-posts :
      (r : Receiver) (under_way : Bytes) (ds : List Delivery)
      → Delivers under_way (after_post r) ds
      → Delivers under_way (some (posts r)) ds
  unfolding drive
  Delivers-posts r under_way ds d =
      later under_way under_way (some (posts r)) (after_post r) ds ds (λ x. x) refl (λ fuel. refl) d

  pub Delivers-answers :
      (r : Receiver) (number : Option ℕ) (under_way : Bytes) (ds : List Delivery)
      → Delivers under_way (after_send_enquire_link_resp inner r) ds
      → Delivers under_way (some (sends r CommandId.enquire_link_resp number)) ds
  unfolding drive
  Delivers-answers r number under_way ds d =
      later under_way under_way (some (sends r CommandId.enquire_link_resp number))
        (after_send_enquire_link_resp inner r) ds ds (λ x. x) refl (λ fuel. refl) d

  pub Delivers-delivers :
      (r : Receiver) (pdu : Result PduVariant) (number status : ℕ) (under_way : Bytes)
      (ds : List Delivery)
      → Delivers under_way (receive_loop inner (new_receiver r.receive_buf)) ds
      → Delivers under_way (some (delivers r pdu number status)) ((pdu, number, status) ∷ ds)
  unfolding drive
  Delivers-delivers r pdu number status under_way ds d =
      later under_way under_way (some (delivers r pdu number status))
        (receive_loop inner (new_receiver r.receive_buf)) ds ((pdu, number, status) ∷ ds)
        (λ x. (pdu, number, status) ∷ x) refl (λ fuel. refl) d
