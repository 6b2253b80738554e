-- ===== src/Net/Session/Receive/Rounds.antt =====
-- Where the loop of receive_op ends: behind the enquire_link_resps at the head of the buffer.
use smpp.Common.{
  ℕ, zero, suc, ◌≤◌, ◌<◌, ◌≡◌, ◌⊎◌, inl, inr, refl, sym, subst, ◌∙◌, arith, ltb, ◌==◌, Bool, true,
  false, not, ◌&&◌, Bool-cases, if◌then◌else◌, Option, none, some, length, drop,
}
use smpp.CommandId
use smpp.Exceptions.{Bytes}
use smpp.Header.{header_length, deserialize_header}
use smpp.Net.FlatBuffer.{FlatBuffer, size, contents}
use smpp.Net.FlatBuffer.Invariant.{IsBuffer, length-contents, contents-consume}
use smpp.Net.Session.Receive.{Receiver, Effect, header, consumed, dispatch, receive_loop}
use smpp.Net.Session.Receive.Fuel.{
  Skips, receive_loop-cases, receive_loop_skip, receive_loop-Skips, spins_behind, consumed-IsBuffer,
  size-consumed, same_id, not_zero,
}

-- The bytes begin with an enquire_link_resp whose command_length is `n`, and hold a header and `n` bytes.
pub record IsResp (n : ℕ) (bytes : Bytes) : Type 0 where
  pub has_header : header_length ≤ length bytes
  pub is_whole : n ≤ length bytes
  pub is_resp : (deserialize_header bytes).command_id ≡ CommandId.enquire_link_resp
  pub says_length : (deserialize_header bytes).command_length ≡ n

-- The second bytes are left of the first ones behind enquire_link_resps that are not empty.
pub data Passes : Bytes → Bytes → Type 0 where
  stops : {bytes : Bytes} → Passes bytes bytes
  passes :
      {bytes rest : Bytes} (n : ℕ)
      → IsResp n bytes
      → 1 ≤ n
      → Passes (drop n bytes) rest
      → Passes bytes rest

-- The loop ends in an effect, and that is what the operation does at once behind the responses, where
-- no other one is whole, unless it has to read first.
pub record Ends (fuel : ℕ) (r : Receiver) : Type 0 where
  pub buffer : FlatBuffer
  pub effect : Effect
  pub path : Passes (contents r.receive_buf) (contents buffer)
  pub stop :
      ((r.needs_more ≡ true) × (buffer ≡ r.receive_buf))
      ⊎ ((r.needs_more ≡ false) × ((n : ℕ) × IsResp n (contents buffer) → ⊥))
  pub ends : receive_loop fuel r ≡ some effect
  pub at_once : receive_loop 1 (record r { receive_buf = buffer }) ≡ some effect

-- Behind the responses there is one with the command_length 0, and the loop never ends.
pub record Spins (r : Receiver) : Type 0 where
  pub rest : Bytes
  pub path : Passes (contents r.receive_buf) rest
  pub empty : IsResp 0 rest
  pub never : (n : ℕ) → receive_loop n r ≡ none

skips : Receiver → Bool
skips r =
    not r.needs_more
    && (not (ltb (size r.receive_buf) header_length)
        && (not (ltb (size r.receive_buf) (header r).command_length)
            && ((header r).command_id == CommandId.enquire_link_resp)))

skips-Skips : (r : Receiver) → skips r ≡ true → Skips r
unfolding skips
skips-Skips r h = ground arith

Skips-skips : (r : Receiver) → skips r ≡ false → Skips r → ⊥
unfolding skips
Skips-skips r h k = ground arith

Skips-IsResp :
    (r : Receiver)
    → IsBuffer r.receive_buf
    → Skips r
    → IsResp (header r).command_length (contents r.receive_buf)
unfolding header
Skips-IsResp r v (m, long, whole, id) =
    let e = length-contents r.receive_buf v in
    record {
      has_header = omega (arith, e, long);
      is_whole = omega (arith, e, whole);
      is_resp = id;
      says_length = refl;
    }

IsResp-Skips :
    (r : Receiver) (n : ℕ)
    → IsBuffer r.receive_buf
    → r.needs_more ≡ false
    → IsResp n (contents r.receive_buf)
    → Skips r
unfolding header
IsResp-Skips r n v m h =
    let e = length-contents r.receive_buf v in
    (m, omega (arith, e, h.has_header), omega (arith, e, h.is_whole, h.says_length), h.is_resp)

under :
    (c : Bool) (x : Option Effect) {y z : Option Effect}
    → (c ≡ false → y ≡ z)
    → (if c then x else y) ≡ (if c then x else z)
under true x e = refl
under false x e = e refl

dispatch-other :
    (r : Receiver) (x y : Option Effect)
    → ((header r).command_id == CommandId.enquire_link_resp) ≡ false
    → dispatch x r ≡ dispatch y r
unfolding dispatch
dispatch-other r x y h =
    under ((header r).command_id == CommandId.enquire_link) _ (λ other. rw h refl)

-- A round that does not skip needs no more fuel.
one_round :
    (fuel : ℕ) (r : Receiver) → skips r ≡ false → receive_loop (suc fuel) r ≡ receive_loop 1 r
unfolding receive_loop
one_round fuel r h = under r.needs_more _ (λ m.
    under (ltb (size r.receive_buf) header_length) _ (λ long.
      under (ltb (size r.receive_buf) (header r).command_length) _
        (λ whole. dispatch-other r _ _ (unfold skips in ground arith))))

-- What the loop finds behind a response that it skips.
module _ (fuel : ℕ) (r : Receiver) (v : IsBuffer r.receive_buf) (s : Skips r)
    (full : 1 ≤ (header r).command_length) where
  behind :
      {rest : Bytes}
      → Passes (contents (consumed r).receive_buf) rest
      → Passes (contents r.receive_buf) rest
  unfolding consumed
  behind {rest} p = passes (header r).command_length (Skips-IsResp r v s) full (
      subst (λ bytes. Passes bytes rest)
        (contents-consume r.receive_buf v (header r).command_length) p)

  Ends-behind : Ends fuel (consumed r) → Ends (suc fuel) r
  unfolding consumed
  Ends-behind e = record {
    buffer = e.buffer;
    effect = e.effect;
    path = behind e.path;
    stop = inr (
      s.0,
      elim e.stop [
        | inl (m, moved) ↦ absurd (let no : true ≡ false = sym m ∙ s.0 in cc)
        | inr (m, other) ↦ other
      ],
    );
    ends = receive_loop_skip fuel r s ∙ e.ends;
    at_once = e.at_once;
  }

  Spins-behind : Spins (consumed r) → Spins r
  Spins-behind e = record {
    rest = e.rest;
    path = behind e.path;
    empty = e.empty;
    never = spins_behind r s e.never;
  }

Ends-here : (fuel : ℕ) (r : Receiver) → IsBuffer r.receive_buf → skips r ≡ false → Ends (suc fuel) r
Ends-here fuel r v h = elim (receive_loop-cases fuel r v) [
  | inr s ↦ absurd (Skips-skips r h s)
  | inl (x, e) ↦ record {
    buffer = r.receive_buf;
    effect = x;
    path = stops;
    stop = elim (Bool-cases r.needs_more) [
      | inl m ↦ inl (m, refl)
      | inr m ↦ inr (m, λ (n, resp). Skips-skips r h (IsResp-Skips r n v m resp))
    ];
    ends = e;
    at_once = sym (one_round fuel r h) ∙ e;
  }
]

-- With more fuel than a well formed buffer has bytes the loop ends: unless it has to read first, it
-- passes the enquire_link_resps that are whole and not empty, and it does at once what it does with
-- the bytes behind them. The one exception is a buffer where an enquire_link_resp with the
-- command_length 0 comes behind these responses; then no fuel is enough.
pub receive_loop-Ends :
    (fuel : ℕ) (r : Receiver)
    → IsBuffer r.receive_buf
    → size r.receive_buf < fuel
    → Ends fuel r ⊎ Spins r
receive_loop-Ends zero r v h = absurd (omega arith)
receive_loop-Ends (suc fuel) r v h = elim (Bool-cases (skips r)) [
  | inr other ↦ inl (Ends-here fuel r v other)
  | inl skip ↦
      let s = skips-Skips r skip in
      elim (Bool-cases ((header r).command_length == 0)) [
        | inl nothing ↦
            let e = same_id _ _ nothing in
            inr (record {
              rest = contents r.receive_buf;
              path = stops;
              empty = subst (λ n. IsResp n (contents r.receive_buf)) e (Skips-IsResp r v s);
              never = receive_loop-Skips r s e;
            })
        | inr filled ↦
            let full = not_zero _ filled in
            elim (receive_loop-Ends fuel (consumed r) (consumed-IsBuffer r v)
              (omega (arith, size-consumed r v, full, h, s.1))) [
                | inl e ↦ inl (Ends-behind fuel r v s full e)
                | inr e ↦ inr (Spins-behind fuel r v s full e)
              ]
      ]
]
