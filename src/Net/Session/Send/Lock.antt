-- ===== src/Net/Session/Send/Lock.antt =====
-- The buffer as a lock: it is not touched while a write is under way, so whole frames go out.
use smpp.Common.{List, [], ◌∷◌, ◌++◌}
use smpp.Common.{ℕ, ◌^◌, ◌<◌, ◌≤◌, ◌≡◌, refl, sym, ap, subst, ◌∙◌, inl, inr, arith}
use smpp.Common.{true, [], ◌∷◌, ◌++◌, All, All-append, List}
use smpp.Common.{length, Bool-cases}
use smpp.Exceptions.{Bytes, Result, ok, throws, stuck}
use smpp.Header.{Header, header_length, rok, serialize_header, deserialize_header}
use smpp.Header.RoundTrip.{
  IsU32, IsHeader, deserialize_header-serialize_header, length-serialize_header,
}
use smpp.Net.Session.{ErrorCode, serialization_failed}
use smpp.Net.Session.Sequence.{next_sequence_number}
use smpp.Net.Session.Send.{
  Kind, command, request, response, SendOp, Write, Completion, Sender, is_empty, header_space,
  complete, start_write, send_serialized, numbered, proceed, attempt, IsSerializer, IsKind, IsOp,
}

-- A frame begins with a header whose command_length is the length of the frame.
abbrev pub IsFrame : Bytes → Type 0
IsFrame frame =
    (header_length ≤ length frame) × ((deserialize_header frame).command_length ≡ length frame)

-- At most one write is under way, and the buffer is the one that was given to it.
abbrev pub Owned : List Write → Bytes → Type 0
Owned [] buf = Unit {0}
Owned (w ∷ []) buf = (buf ≡ w.frame) × IsFrame buf × IsOp w.op
Owned (w ∷ x ∷ ws) buf = ⊥

pub record IsSender (s : Sender) : Type 0 where
  pub owned : Owned s.writing s.send_buf
  pub frames : All IsFrame s.wire
  pub numbers : s.sequence_number < 2 ^ 32
  pub waiting_ops : All IsOp s.waiting
  pub woken_ops : All IsOp s.woken

pub serialize_header-IsFrame :
    (vec : Bytes) (h : Header)
    → IsHeader h
    → header_length ≤ length vec
    → h.command_length ≡ length vec
    → IsFrame (serialize_header vec h)
serialize_header-IsFrame vec h v long e =
    let same : length (serialize_header vec h) ≡ length vec = length-serialize_header vec h long in
    (
      omega (arith, same),
      ap (λ (x : Header). x.command_length) ((deserialize_header-serialize_header vec h v).0)
          ∙ e
          ∙ sym same,
    )

pub next_sequence_number-IsU32 : (n : ℕ) → IsU32 (next_sequence_number n)
unfolding next_sequence_number
next_sequence_number-IsU32 n = ground arith

-- What the code behind the loop needs of the state: nobody writes.
abbrev pub IsFree : Sender → Type 0
IsFree s = s.writing ≡ []

start_write-IsSender :
    (op : SendOp) (number : ℕ) (frame : Bytes) (s : Sender)
    → IsFrame frame
    → IsOp op
    → IsFree s
    → IsSender s
    → IsSender (start_write op number frame s)
unfolding start_write
start_write-IsSender op number frame s f h free v = record {
  owned =
      subst
        (λ ws.
          Owned (ws ++ (record { op = op; sequence_number = number; frame = frame } ∷ [])) frame)
        (sym free) (refl, f, h);
  frames = v.frames;
  numbers = v.numbers;
  waiting_ops = v.waiting_ops;
  woken_ops = v.woken_ops;
}

pub complete-IsSender :
    (id : ℕ) (ec : ErrorCode) (number : ℕ) (s : Sender)
    → IsSender s
    → IsSender (complete id ec number s)
unfolding complete
complete-IsSender id ec number s v = record {
  owned = v.owned;
  frames = v.frames;
  numbers = v.numbers;
  waiting_ops = v.waiting_ops;
  woken_ops = v.woken_ops;
}

pub completed-IsSender :
    (done : List Completion) (s : Sender) → IsSender s → IsSender (record s { completed = done })
completed-IsSender done s v = record {
  owned = v.owned;
  frames = v.frames;
  numbers = v.numbers;
  waiting_ops = v.waiting_ops;
  woken_ops = v.woken_ops;
}

-- The operations that wait, or were woken, are others.
pub woken-IsSender :
    (ops : List SendOp) (s : Sender)
    → All IsOp ops
    → IsSender s
    → IsSender (record s { woken = ops })
woken-IsSender ops s h v = record {
  owned = v.owned;
  frames = v.frames;
  numbers = v.numbers;
  waiting_ops = v.waiting_ops;
  woken_ops = h;
}

pub waiting-IsSender :
    (ops : List SendOp) (s : Sender)
    → All IsOp ops
    → IsSender s
    → IsSender (record s { waiting = ops })
waiting-IsSender ops s h v = record {
  owned = v.owned;
  frames = v.frames;
  numbers = v.numbers;
  waiting_ops = h;
  woken_ops = v.woken_ops;
}

pub cleared-IsSender : (s : Sender) → IsFree s → IsSender s → IsSender (record s { send_buf = [] })
cleared-IsSender s free v = record {
  owned = subst (λ w. Owned w []) (sym free) tt;
  frames = v.frames;
  numbers = v.numbers;
  waiting_ops = v.waiting_ops;
  woken_ops = v.woken_ops;
}

send_serialized-IsSender :
    (op : SendOp) (command_id number status reported : ℕ) (serialize : Bytes → Result Bytes)
    (s : Sender)
    → IsU32 command_id × IsU32 number × IsU32 status
    → IsSerializer serialize
    → IsOp op
    → IsFree s
    → IsSender s
    → IsSender (send_serialized op command_id number status reported (serialize header_space) s)
send_serialized-IsSender op command_id number status reported serialize s u (inl (body, e, short)) h
      free v =
    rw e (
      unfold send_serialized in
      start_write-IsSender op reported _ s
        (serialize_header-IsFrame (header_space ++ body) _ (omega arith, u.0, u.2, u.1)
          (omega arith) (omega arith))
        h free v)
send_serialized-IsSender op command_id number status reported serialize s u (inr (x, e)) h free v =
    rw e (
      unfold send_serialized in
      complete-IsSender op.id serialization_failed 0 _ (cleared-IsSender s free v))

pub numbered-IsU32 : (r : Result Bytes) (n : ℕ) → IsU32 n → IsU32 (numbered r n)
unfolding numbered
numbered-IsU32 (ok vec) n h = next_sequence_number-IsU32 n
numbered-IsU32 (throws e) n h = h
numbered-IsU32 stuck n h = h

pub renumber-IsSender :
    (n : ℕ) (s : Sender) → IsU32 n → IsSender s → IsSender (record s { sequence_number = n })
renumber-IsSender n s h v = record {
  owned = v.owned;
  frames = v.frames;
  numbers = h;
  waiting_ops = v.waiting_ops;
  woken_ops = v.woken_ops;
}

proceed-IsSender :
    (op : SendOp) (kind : Kind) (s : Sender)
    → IsKind kind
    → IsOp op
    → IsFree s
    → IsSender s
    → IsSender (proceed op kind s)
unfolding proceed
proceed-IsSender op (command command_id number) s k h free v =
    start_write-IsSender op 0 _ s
      (serialize_header-IsFrame header_space _ (omega arith, k.0, omega arith, k.1) (omega arith)
        refl)
      h free v
proceed-IsSender op (request command_id serialize) s k h free v =
    let n = numbered-IsU32 (serialize header_space) s.sequence_number v.numbers in
    send_serialized-IsSender op command_id _ rok _ serialize _ (k.0, n, omega arith) k.1 h free
      (renumber-IsSender _ s n v)
proceed-IsSender op (response command_id serialize number status) s k h free v =
    send_serialized-IsSender op command_id number status 0 serialize s (k.0, k.2, k.3) k.1 h free v

Owned-free : (ws : List Write) (buf : Bytes) → Owned ws buf → is_empty buf ≡ true → ws ≡ []
Owned-free [] buf h e = refl
Owned-free (w ∷ []) [] h e = absurd (omega arith)
Owned-free (w ∷ []) (b ∷ bs) h e = cc
Owned-free (w ∷ x ∷ ws) buf h e = absurd h

-- The write that ends is the only one.
pub Owned-ends :
    (w : Write) (before behind ws : List Write) (buf : Bytes)
    → ws ≡ before ++ (w ∷ behind)
    → Owned ws buf
    → (before ++ behind ≡ []) × Owned (w ∷ []) buf
Owned-ends w before behind ws buf e h = go before behind (subst (λ x. Owned x buf) e h)
  where
    go : (xs ys : List Write) → Owned (xs ++ (w ∷ ys)) buf → (xs ++ ys ≡ []) × Owned (w ∷ []) buf
    go [] [] a = (refl, a)
    go [] (y ∷ ys) a = absurd a
    go (x ∷ []) ys a = absurd a
    go (x ∷ z ∷ xs) ys a = absurd a

pub attempt-IsSender : (op : SendOp) (s : Sender) → IsOp op → IsSender s → IsSender (attempt op s)
unfolding attempt
attempt-IsSender op s h v = elim (Bool-cases (is_empty s.send_buf)) [
  | inl free ↦
      rw free (proceed-IsSender op op.kind s h h (Owned-free s.writing s.send_buf v.owned free) v)
  | inr busy ↦ rw busy (record {
    owned = v.owned;
    frames = v.frames;
    numbers = v.numbers;
    waiting_ops = All-append IsOp s.waiting (op ∷ []) v.waiting_ops (h, tt);
    woken_ops = v.woken_ops;
  })
]
