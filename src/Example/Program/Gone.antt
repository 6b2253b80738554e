-- ===== src/Example/Program/Gone.antt =====
-- What has gone out, wherever the coroutine stands, is what went out at some point of its program.
use smpp.Common.{ℕ, ◌≡◌, refl, sym, subst, ◌∙◌, ◌⊎◌, inl, inr, arith, ◌==◌, Bool-cases}
use smpp.Common.{List, [], ◌∷◌, ◌++◌, All, append-nil}
use smpp.Net.Session.{
  ErrorCode, no_error, operation_aborted, serialization_failed, enquire_link_timeout, unbinded,
}
use smpp.Net.Session
use smpp.Net.Session.Send.{Completion}
use smpp.Net.Session.Send.Once.{sum_of, only, finished}
use smpp.Net.Session.Stream.{Delivery}
use smpp.Net.Session.Silence.Good.{IsPrefix}
use smpp.Net.Session.Connection.{Message, went_out}
use smpp.Net.Session.Pair.{Endpoint}
use smpp.Example.Program.{
  Action, async_send, Thread, at, sending, unbinding, system_error, bad_variant_access,
}
use smpp.Example.Program.Trace.{Trace, has_sent, Says}

-- The send is in flight, or its completion is there.
found :
    (id : ℕ) (R : Completion → Type 0) (cs : List Completion)
    → All R cs
    → (sum_of (λ (c : Completion). only id c.id) cs ≡ 0) ⊎ ((c : Completion) × (c.id ≡ id) × R c)
unfolding sum_of
found id R [] h = inl refl
found id R (c ∷ cs) h = elim (Bool-cases (c.id == id)) [
  | inl here ↦ inr (c, ground arith, h.0)
  | inr other ↦ elim (found id R cs h.1) [
    | inl none ↦ inl (rw other (omega (arith, none)))
    | inr there ↦ inr there
  ]
]

module _ {P : Type 0} (program : P → Action P) (start : P) (message : ℕ → Message) where
  -- A point of the program with what went out, and the PDUs that were given until then.
  pub record Passed (x : Endpoint) : Type 0 where
    pub point : P
    pub given : List Delivery
    pub trace : Trace program start point given x.gone
    pub is_first : IsPrefix given x.given

  here-Passed : (x : Endpoint) (p : P) → Trace program start p x.given x.gone → Passed x
  here-Passed x p t = record {
    point = p;
    given = x.given;
    trace = t;
    is_first = ([], append-nil x.given);
  }

  went_out-Passed :
      (x : Endpoint) (p q : P) (before : List Delivery) (m : Message) (ec : ErrorCode) (number : ℕ)
      → Trace program start p x.given before
      → program p ≡ async_send m q
      → x.gone ≡ before ++ went_out ec m number
      → Passed x
  went_out-Passed x p q before m no_error number t a e =
      here-Passed x q (subst (Trace program start q x.given) (sym e) (has_sent m number t a))
  went_out-Passed x p q before m operation_aborted number t a e =
      here-Passed x p (subst (Trace program start p x.given) (sym (e ∙ append-nil before)) t)
  went_out-Passed x p q before m (Session.system_error n) number t a e =
      here-Passed x p (subst (Trace program start p x.given) (sym (e ∙ append-nil before)) t)
  went_out-Passed x p q before m serialization_failed number t a e =
      here-Passed x p (subst (Trace program start p x.given) (sym (e ∙ append-nil before)) t)
  went_out-Passed x p q before m enquire_link_timeout number t a e =
      here-Passed x p (subst (Trace program start p x.given) (sym (e ∙ append-nil before)) t)
  went_out-Passed x p q before m unbinded number t a e =
      here-Passed x p (subst (Trace program start p x.given) (sym (e ∙ append-nil before)) t)

  pub Says-Passed : (x : Endpoint) (t : Thread P) → Says program start message x t → Passed x
  Says-Passed x (at p) (t, v) = here-Passed x p t
  Says-Passed x (sending id q) t = elim (found id _ x.sender.completed t.awaits.reported) [
    | inl none ↦ here-Passed x t.point (
        subst (Trace program start t.point x.given)
          (sym (t.awaits.silent (unfold finished in none))) t.trace)
    | inr (c, e, r) ↦
        went_out-Passed x t.point q t.before (message id) c.ec c.sequence_number t.trace t.asks
          (r e)
  ]
  Says-Passed x (unbinding id q) (t, v) = here-Passed x q t
  Says-Passed x system_error ((p, t), v) = here-Passed x p t
  Says-Passed x bad_variant_access (w, v) = record {
    point = w.point;
    given = w.before;
    trace = w.trace;
    is_first = (_, sym w.all_given);
  }
