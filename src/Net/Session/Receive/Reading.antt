-- ===== src/Net/Session/Receive/Reading.antt =====
-- Bytes that arrive.
use smpp.Common.{
  Bool, not, ◌&&◌, if◌then◌else◌, sym, append-nil, ℕ, suc, ◌-◌, ◌≤◌, ◌≡◌, refl, ◌∙◌, arith, some,
  false, [], ◌∷◌, ◌++◌, length,
}
use smpp.Exceptions.{Bytes}
use smpp.Net.FlatBuffer.{size, capacity, contents}
use smpp.Net.FlatBuffer.Invariant.{IsBuffer, write-IsBuffer, contents-write}
use smpp.Net.Session.{ErrorCode, no_error, operation_aborted, is_aborted, is_error}
use smpp.Net.Session.Receive.{Receiver, fails, reads, arrived, after_read, receive_loop}
use smpp.Net.Session.Receive.Fuel.{more-Prepared}
use smpp.Net.Session.Receive.Keepalive.{Incomplete, receive_loop-Incomplete}

-- Between two waits: the buffer of the session, and no request for more bytes.
pub record IsReading (total : ℕ) (r : Receiver) : Type 0 where
  pub is_buffer : IsBuffer r.receive_buf
  pub same_capacity : capacity r.receive_buf ≡ total
  pub not_more : r.needs_more ≡ false

-- Where the buffer holds no whole PDU, the operation reads, with all the room that is left.
pub receive_loop-reads :
    (total fuel : ℕ) (r : Receiver)
    → IsReading total r
    → Incomplete r
    → (waiting : Receiver) × (receive_loop (suc fuel) r ≡ some (reads waiting))
      × IsReading total waiting
      × (contents waiting.receive_buf ≡ contents r.receive_buf)
      × (waiting.receive_buf.last_pos - waiting.receive_buf.out_pos ≡ total - size r.receive_buf)
receive_loop-reads total fuel r v i =
    let (b, e, made) = more-Prepared r v.is_buffer in
    (
      record r { receive_buf = b; needs_more = false; needs_post = false },
      receive_loop-Incomplete fuel r i ∙ e,
      record {
        is_buffer = made.is_buffer;
        same_capacity = made.same_capacity ∙ v.same_capacity;
        not_more = refl;
      },
      made.same_contents,
      omega (arith, made.region, v.same_capacity),
    )

-- What a read received is at the end of the contents.
pub arrived-IsReading :
    (total : ℕ) (bytes : Bytes) (r : Receiver)
    → IsReading total r
    → length bytes ≤ r.receive_buf.last_pos - r.receive_buf.out_pos
    → IsReading total (arrived bytes r)
      × (contents (arrived bytes r).receive_buf ≡ contents r.receive_buf ++ bytes)
arrived-IsReading total [] r v fits = (v, sym (append-nil (contents r.receive_buf)))
arrived-IsReading total (b ∷ bs) r v fits =
    let (is_buffer, same) = write-IsBuffer r.receive_buf v.is_buffer (b ∷ bs) fits in
    (
      record {
        is_buffer = is_buffer;
        same_capacity = same ∙ v.same_capacity;
        not_more = v.not_more;
      },
      contents-write r.receive_buf v.is_buffer (b ∷ bs) fits,
    )

-- How the operation goes on after a read, by its error.
pub after_read-arrived :
    (fuel : ℕ) (bytes : Bytes) (ec : ErrorCode) (cancelled : Bool) (r : Receiver)
    → after_read fuel bytes ec cancelled r ≡ (
        if is_aborted ec && not cancelled
        then after_read fuel [] operation_aborted false (arrived bytes r)
        else if is_error ec
        then some (fails (arrived bytes r) ec)
        else receive_loop fuel (arrived bytes r))
unfolding after_read
after_read-arrived fuel bytes ec cancelled r = refl

-- What a read received is at the end of the contents when the loop goes on.
pub after_read-received :
    (total inner : ℕ) (bytes : Bytes) (r : Receiver)
    → IsReading total r
    → 1 ≤ length bytes
    → length bytes ≤ r.receive_buf.last_pos - r.receive_buf.out_pos
    → (next : Receiver) × (after_read inner bytes no_error false r ≡ receive_loop inner next)
      × IsReading total next
      × (contents next.receive_buf ≡ contents r.receive_buf ++ bytes)
unfolding after_read
after_read-received total inner [] r v any fits = absurd (omega arith)
after_read-received total inner (b ∷ bs) r v any fits =
    let (reading, more) = arrived-IsReading total (b ∷ bs) r v fits in
    (arrived (b ∷ bs) r, refl, reading, more)
