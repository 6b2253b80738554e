-- ===== src/Tests/Sessions.antt =====
-- The theorems on the session, at concrete inputs.
use smpp.Common.{length, ◌⊎◌}
use smpp.Net.Session.Send.Once.{pending, finished, called, only, called-once}
use smpp.Common.{◌≡◌, refl, subst, inl, inr, arith, true, false, [], ◌∷◌, ◌≤◌, ◌++◌, ◌≢◌, All}
use smpp.Exceptions.{Bytes, ok, throws, length_error}
use smpp.CommandId
use smpp.Header.{serialize_header, serialize_u32}
use smpp.Net.Session.{no_error, operation_aborted}
use smpp.Net.Session.Sequence.{next_sequence_number, issued, issued_range_distinct}
use smpp.Net.Session.Send.{
  command, request, SendOp, Write, Sender, new_sender, attempt, send_unbind, resume, write_end,
  Reach, here, next, starts, unbinds, ends, resumes, cancel_one,
}
use smpp.Net.Session.Send.Lock.{IsFrame, IsSender}
use smpp.Net.Session.Send.Handlers.{new_sender-IsSender, Reach-IsSender, Reach-new_sender}
use smpp.Net.Session.Send.Wakeups.{IsLive, CleanReach, CleanReach-IsLive}
use smpp.Net.Session.Send.Wakeups
use smpp.Net.Session.Send.Faults.{timed_out-Stalled, resume-write_end-Forgotten, Stalled, Forgotten}

abbrev unbind_op : SendOp
unbind_op = record { id = 1; kind = command CommandId.unbind 1 }

abbrev request_op : SendOp
request_op = record { id = 2; kind = request CommandId.submit_sm (λ buf. ok (buf ++ (7 ∷ []))) }

abbrev failing_op : SendOp
failing_op = record {
  id = 3;
  kind = request CommandId.submit_sm (λ buf. throws (length_error "too long"));
}

abbrev unbind_frame : Bytes
unbind_frame = 0 ∷ 0 ∷ 0 ∷ 16 ∷ 0 ∷ 0 ∷ 0 ∷ 6 ∷ 0 ∷ 0 ∷ 0 ∷ 0 ∷ 0 ∷ 0 ∷ 0 ∷ 1 ∷ []

abbrev unbind_write : Write
unbind_write = record { op = unbind_op; sequence_number = 0; frame = unbind_frame }

-- One operation writes and two wait.
abbrev busy : Sender
busy = record {
  send_buf = unbind_frame;
  sequence_number = 1;
  waiting = request_op ∷ failing_op ∷ [];
  woken = [];
  writing = unbind_write ∷ [];
  wire = [];
  completed = [];
}

busy_lem : attempt failing_op (attempt request_op (send_unbind 1 new_sender)) ≡ busy
unfolding attempt send_unbind serialize_header serialize_u32 next_sequence_number
busy_lem = refl

busy-Reach : Reach new_sender busy
busy-Reach = subst (Reach new_sender) busy_lem (
    next
      (next (next here (unbinds 1 _))
        (starts request_op _ (omega arith, inl (7 ∷ [], refl, omega arith))))
      (starts failing_op _ (omega arith, inr (_, refl))))

-- The write ends, and the request that it wakes is written.
abbrev ended : Sender
ended = write_end unbind_write no_error false (record busy { writing = [] })

ended_lem : ended.woken ≡ request_op ∷ []
unfolding write_end cancel_one
ended_lem = refl

abbrev resumed : Sender
resumed = resume request_op operation_aborted false (record ended { woken = [] })

resumed-Reach : Reach new_sender resumed
resumed-Reach =
    next (next busy-Reach (ends unbind_write [] [] no_error false busy refl))
      (resumes request_op [] [] false ended ended_lem)

Reach-new_sender_example :
    All IsFrame resumed.wire
    × (length resumed.writing ≤ 1)
    × All (λ w. resumed.send_buf ≡ w.frame) resumed.writing
Reach-new_sender_example = Reach-new_sender resumed-Reach

busy-IsLive : IsLive busy
busy-IsLive = record { writes = λ e. refl; wakes = λ free e. absurd cc }

CleanReach-IsLive_example : IsLive resumed
CleanReach-IsLive_example = CleanReach-IsLive busy-IsLive (
    Wakeups.next
      (Wakeups.next Wakeups.here (Wakeups.ends unbind_write [] [] no_error false busy refl refl))
      (Wakeups.resumes request_op [] [] ended ended_lem (7 ∷ [], refl)))

issued_range_distinct_example : (1 ≤ issued 1) × (issued 1 ≤ 0x7fff_ffff) × (issued 1 ≢ issued 4)
issued_range_distinct_example = issued_range_distinct 0 3 (omega arith) (omega arith)

busy-IsSender : IsSender busy
busy-IsSender = Reach-IsSender new_sender-IsSender busy-Reach

abbrev late : Sender
late = write_end unbind_write operation_aborted false (record busy { writing = [] })

timed_out-Stalled_example : Stalled late × (late.wire ≡ [])
timed_out-Stalled_example =
    timed_out-Stalled unbind_write CommandId.unbind 1 busy refl refl busy-IsSender here

resume-write_end-Forgotten_example :
    (ended.woken ≡ request_op ∷ [])
    × Forgotten
        (failing_op ∷ [])
        (resume request_op operation_aborted true (record ended { woken = [] }))
resume-write_end-Forgotten_example =
    resume-write_end-Forgotten unbind_write no_error false request_op (failing_op ∷ []) true
      (record busy { writing = [] }) refl refl refl refl (inl refl)

-- The request waits while the unbind is written.
called-once_example :
    ((pending (only 2) (attempt request_op (send_unbind 1 new_sender)) ≡ 1)
      × (finished (only 2) (attempt request_op (send_unbind 1 new_sender)) ≡ 0))
    ⊎ ((pending (only 2) (attempt request_op (send_unbind 1 new_sender)) ≡ 0)
        × (finished (only 2) (attempt request_op (send_unbind 1 new_sender)) ≡ 1))
unfolding called
called-once_example =
    called-once 2
      (next (next here (unbinds 1 new_sender))
        (starts request_op _ (omega arith, inl (7 ∷ [], refl, omega arith))))
      refl
