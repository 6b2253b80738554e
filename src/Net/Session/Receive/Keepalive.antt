-- ===== src/Net/Session/Receive/Keepalive.antt =====
-- The time limit of the reads of receive_op.
use smpp.Common.{
  ℕ, suc, ◌<◌, ◌≡◌, ◌⊎◌, inl, inr, refl, ◌∙◌, ltb, Bool, true, false, none, some, [], if◌then◌else◌,
}
use smpp.Common.{lt→ltb}
use smpp.CommandId
use smpp.Header.{header_length}
use smpp.Net.FlatBuffer.{size, contents}
use smpp.Net.FlatBuffer.Invariant.{IsBuffer}
use smpp.Net.Session.{no_error, operation_aborted, enquire_link_timeout}
use smpp.Net.Session.Receive.{
  Receiver, reads, sends, closes, header, more, receive_loop, after_read, after_send_enquire_link,
  after_send_unbind,
}
use smpp.Net.Session.Receive.Fuel.{more-reads}

-- The buffer does not hold a whole PDU.
abbrev pub Incomplete : Receiver → Type 0
Incomplete r =
    (r.needs_more ≡ false)
    × ((size r.receive_buf < header_length) ⊎ (size r.receive_buf < (header r).command_length))

same_branch {ℓ} : {A : Type ℓ} (c : Bool) (x y : A) → y ≡ x → (if c then x else y) ≡ x
same_branch true x y e = refl
same_branch false x y e = e

if-take {ℓ} : {A : Type ℓ} {c : Bool} {x : A} (y : A) → c ≡ true → (if c then x else y) ≡ x
if-take y e = rw e refl

pub receive_loop-Incomplete :
    (fuel : ℕ) (r : Receiver) → Incomplete r → receive_loop (suc fuel) r ≡ more r
unfolding receive_loop
receive_loop-Incomplete fuel r (m, inl short) =
    same_branch r.needs_more (more r) _
      (if-take _ (lt→ltb (size r.receive_buf) header_length short))
receive_loop-Incomplete fuel r (m, inr short) = same_branch r.needs_more (more r) _ (
    same_branch (ltb (size r.receive_buf) header_length) (more r) _
      (if-take _ (lt→ltb (size r.receive_buf) (header r).command_length short)))

-- Where the buffer holds no whole PDU and nothing arrives within the time limit of a read, an
-- enquire_link is sent and the operation reads again; where nothing arrives within that limit
-- either, an unbind is sent and the operation ends with enquire_link_timeout and a closed socket.
pub after_read-after_read :
    (n fuel m : ℕ) (r : Receiver)
    → IsBuffer r.receive_buf
    → Incomplete r
    → r.pending_enquire_link ≡ false
    → (asked again : Receiver) × (after_read n [] operation_aborted false r
        ≡ some (sends asked CommandId.enquire_link none))
      × (after_send_enquire_link (suc fuel) no_error asked ≡ some (reads again))
      × (contents again.receive_buf ≡ contents r.receive_buf)
      × (after_read m [] operation_aborted false again ≡ some (sends again CommandId.unbind none))
      × (after_send_unbind again ≡ some (closes again enquire_link_timeout))
unfolding after_read after_send_enquire_link after_send_unbind header
after_read-after_read n fuel m r v i p =
    let asked : Receiver = record r { pending_enquire_link = true } in
    let (b, e, is_buffer, same) = more-reads asked v in
    (
      asked,
      record asked { receive_buf = b; needs_more = false; needs_post = false },
      rw p refl,
      receive_loop-Incomplete fuel asked i ∙ e,
      same,
      refl,
      refl,
    )

pub after_read-times_out :
    (fuel : ℕ) (r : Receiver)
    → after_read fuel [] operation_aborted false r ≡ (
        if r.pending_enquire_link
        then some (sends r CommandId.unbind none)
        else some (sends (record r { pending_enquire_link = true }) CommandId.enquire_link none))
unfolding after_read
after_read-times_out fuel r = refl

pub after_send_enquire_link-receive_loop :
    (fuel : ℕ) (r : Receiver) → after_send_enquire_link fuel no_error r ≡ receive_loop fuel r
unfolding after_send_enquire_link
after_send_enquire_link-receive_loop fuel r = refl
