-- ===== src/Net/Session/Receive/Fuel.antt =====
-- How many rounds the loop of receive_op takes.
use smpp.Common.{
  ℕ, zero, suc, ◌-◌, ◌+◌, ◌≤◌, ◌≡◌, ◌⊎◌, inl, inr, refl, ap, ◌∙◌, arith, ltb, ◌==◌, Bool, true,
  false,
}
use smpp.Common.{Option, none, some, length, if◌then◌else◌, length-drop}
use smpp.CommandId
use smpp.Common.{le→ltb}
use smpp.Net.Session.Receive.Framing.{if-skip}
use smpp.Header.{header_length}
use smpp.Net.FlatBuffer.{FlatBuffer, size, capacity, contents, consume}
use smpp.Net.FlatBuffer.Invariant.{
  IsBuffer, length-contents, contents-consume, consume-IsBuffer, consume-zero, prepare_fits,
  Prepared,
}
use smpp.Net.Session.Receive.{
  Receiver, Effect, reads, header, consumed, more, after_post, receive_loop,
}

-- The next PDU is complete, and it is an enquire_link_resp.
abbrev pub Skips : Receiver → Type 0
Skips r =
    (r.needs_more ≡ false)
    × (header_length ≤ size r.receive_buf)
    × ((header r).command_length ≤ size r.receive_buf)
    × ((header r).command_id ≡ CommandId.enquire_link_resp)

fits : {b : FlatBuffer} → IsBuffer b → size b + (capacity b - size b) ≤ capacity b
unfolding size capacity
fits v = omega arith

-- There is always room for the bytes that the operation asks for.
pub more-Prepared :
    (r : Receiver)
    → IsBuffer r.receive_buf
    → (b : FlatBuffer) × (more r
        ≡ some (reads (record r { receive_buf = b; needs_more = false; needs_post = false })))
      × Prepared (capacity r.receive_buf - size r.receive_buf) r.receive_buf b
unfolding more
more-Prepared r v =
    let (b, e, p) =
      prepare_fits r.receive_buf v (capacity r.receive_buf - size r.receive_buf) (fits v) in
    (b, rw (e, more) refl, p)

pub more-reads :
    (r : Receiver)
    → IsBuffer r.receive_buf
    → (b : FlatBuffer) × (more r
        ≡ some (reads (record r { receive_buf = b; needs_more = false; needs_post = false })))
      × IsBuffer b
      × (contents b ≡ contents r.receive_buf)
more-reads r v = let (b, e, p) = more-Prepared r v in (b, e, p.is_buffer, p.same_contents)

abbrev pub Returns : Option Effect → Type 0
Returns o = (e : Effect) × (o ≡ some e)

both : (c : Bool) {x y : Option Effect} → Returns x → Returns y → Returns (if c then x else y)
both true p q = p
both false p q = q

unless :
    {K : Type 0} (c : Bool) {x y : Option Effect}
    → Returns x
    → (c ≡ false → Returns y ⊎ K)
    → Returns (if c then x else y) ⊎ K
unless true p q = inl p
unless false p q = q refl

except :
    {K : Type 0} (c : Bool) (x : Option Effect) {y : Option Effect}
    → (c ≡ true → K)
    → Returns y
    → Returns (if c then x else y) ⊎ K
except true x k q = inr (k refl)
except false x k q = inl q

after_post-Returns : (r : Receiver) → Returns (after_post r)
unfolding after_post
after_post-Returns r = both (ltb (header r).command_length header_length) (_, refl) (_, refl)

pub same_id : (a b : ℕ) → (a == b) ≡ true → a ≡ b
same_id a b h = ground arith

pub not_less : (a b : ℕ) → ltb a b ≡ false → b ≤ a
not_less a b h = ground arith

-- Each round but one that skips ends in an effect.
pub receive_loop-cases :
    (fuel : ℕ) (r : Receiver)
    → IsBuffer r.receive_buf
    → Returns (receive_loop (suc fuel) r) ⊎ Skips r
unfolding receive_loop
receive_loop-cases fuel r v =
    let h = header r in
    let (b, e, is_buffer, same) = more-reads r v in
    unless r.needs_more (_, e)
      (λ m.
        unless (ltb (size r.receive_buf) header_length) (_, e)
          (λ long.
            unless (ltb (size r.receive_buf) h.command_length) (_, e)
              (λ whole.
                unless (h.command_id == CommandId.enquire_link) (_, refl)
                  (λ other.
                    except (h.command_id == CommandId.enquire_link_resp)
                      (receive_loop fuel (consumed r))
                      (λ id. (m, not_less _ _ long, not_less _ _ whole, same_id _ _ id))
                      (both (h.command_id == CommandId.unbind) (_, refl)
                        (both (h.command_id == CommandId.unbind_resp) (_, refl)
                          (both r.needs_post (_, refl) (after_post-Returns r))))))))

pub receive_loop_skip :
    (fuel : ℕ) (r : Receiver) → Skips r → receive_loop (suc fuel) r ≡ receive_loop fuel (consumed r)
unfolding receive_loop
receive_loop_skip fuel r (m, long, whole, id) =
    if-skip (more r) m
    ∙ if-skip (more r) (le→ltb (size r.receive_buf) header_length long)
    ∙ if-skip (more r) (le→ltb (size r.receive_buf) (header r).command_length whole)
    ∙ rw id refl

pub not_zero : (a : ℕ) → (a == 0) ≡ false → 1 ≤ a
not_zero a h = ground arith

pub consumed-IsBuffer : (r : Receiver) → IsBuffer r.receive_buf → IsBuffer (consumed r).receive_buf
unfolding consumed
consumed-IsBuffer r v = consume-IsBuffer r.receive_buf v (header r).command_length

pub size-consumed :
    (r : Receiver)
    → IsBuffer r.receive_buf
    → size (consumed r).receive_buf ≡ size r.receive_buf - (header r).command_length
unfolding consumed
size-consumed r v =
    let n = (header r).command_length in
    omega (
      arith,
      length-contents r.receive_buf v,
      length-contents _ (consume-IsBuffer r.receive_buf v n),
      ap length (contents-consume r.receive_buf v n),
      length-drop n (contents r.receive_buf),
    )

consumed_none :
    (r : Receiver) → 1 ≤ size r.receive_buf → (header r).command_length ≡ 0 → consumed r ≡ r
unfolding consumed
consumed_none r h e =
    ap (λ (b : FlatBuffer). record r { receive_buf = b })
      (ap (λ n. consume n r.receive_buf) e ∙ consume-zero r.receive_buf h)

-- Where the next PDU is an enquire_link_resp with a command_length of 0 and the buffer holds a
-- header, the loop goes round without end: no fuel is enough.
pub receive_loop-Skips :
    (r : Receiver)
    → Skips r
    → (header r).command_length ≡ 0
    → (fuel : ℕ) → receive_loop fuel r ≡ none
unfolding receive_loop
receive_loop-Skips r h e zero = refl
receive_loop-Skips r h e (suc fuel) =
    receive_loop_skip fuel r h
    ∙ ap (receive_loop fuel) (consumed_none r (omega (arith, h.1)) e)
    ∙ receive_loop-Skips r h e fuel

pub spins_behind :
    (r : Receiver)
    → Skips r
    → ((fuel : ℕ) → receive_loop fuel (consumed r) ≡ none)
    → (fuel : ℕ) → receive_loop fuel r ≡ none
unfolding receive_loop
spins_behind r h never zero = refl
spins_behind r h never (suc fuel) = receive_loop_skip fuel r h ∙ never fuel
