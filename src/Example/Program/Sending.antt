-- ===== src/Example/Program/Sending.antt =====
-- The send that a coroutine awaits, while the session goes on.
use smpp.Common.{ℕ, ◌+◌, ◌≡◌, refl, ap, sym, subst, ◌∙◌, ◌≢◌, arith}
use smpp.Common.{List, [], ◌∷◌, ◌++◌, All, All-append, append-nil}
use smpp.Net.Session.Send.{Completion, Sender}
use smpp.Net.Session.Send.Once.{sum_of, sum_of-append, only, finished, tally}
use smpp.Net.Session.Send.Effects.{InFlight}
use smpp.Net.Session.Stream.{Delivery}
use smpp.Net.Session.Connection.{Message, went_out}
use smpp.Net.Session.Connection.Moves.{IsKnown, IsReport}
use smpp.Example.Program.Trace.{IsCommandOr, Awaits}

pub All-map {ℓ κ μ} :
    {A : Type ℓ} {P : A → Type κ} {Q : A → Type μ} (f : (a : A) → P a → Q a) (xs : List A)
    → All P xs
    → All Q xs
All-map f [] h = tt
All-map f (x ∷ xs) h = (f x h.0, All-map f xs h.1)

pub zero_only : (k j : ℕ) → only k j ≡ 0 → j ≢ k
zero_only k j h i = ground arith

-- Where the one does not occur, every element is another.
pub none_left {ℓ κ} :
    {A : Type ℓ} (B : A → Type κ) (id : ℕ) (f : A → ℕ) (xs : List A)
    → sum_of (λ x. only id (f x)) xs ≡ 0
    → All B xs
    → All (λ x. B x × (f x ≢ id)) xs
unfolding sum_of
none_left B id f [] e h = tt
none_left B id f (x ∷ xs) e h =
    ((h.0, zero_only id (f x) (omega (arith, e))), none_left B id f xs (omega (arith, e)) h.1)

pub trivially {ℓ} : {A : Type ℓ} (xs : List A) → All (λ x. Unit {0}) xs
trivially [] = tt
trivially (x ∷ xs) = (tt, trivially xs)

module _ (message : ℕ → Message) where
  -- What an event adds: completions of commands, or the one that is awaited.
  pub data Adds (id : ℕ) (s : Sender) (out : List Delivery) (done : List Completion) : Type 0 where
    others : out ≡ [] → All (λ (c : Completion). c.id ≢ id) done → Adds id s out done
    itself :
        finished (only id) s ≡ 0
        → All (IsReport message id out) done
        → (done ≡ [] → out ≡ [])
        → Adds id s out done

  module _ (id : ℕ) (before gone : List Delivery) (s : Sender) where
    finished-append :
        (t : Sender) (done : List Completion)
        → t.completed ≡ s.completed ++ done
        → finished (only id) t
          ≡ finished (only id) s + sum_of (λ (c : Completion). only id c.id) done
    unfolding finished
    finished-append t done e =
        ap (sum_of (λ (c : Completion). only id c.id)) e
        ∙ sum_of-append (λ (c : Completion). only id c.id) s.completed done

    abbrev pub Reported : List Delivery → Completion → Type 0
    Reported gone c = c.id ≡ id → gone ≡ before ++ went_out c.ec (message id) c.sequence_number

    nothing_silent :
        (out : List Delivery) (done : List Completion)
        → All (IsReport message id out) done
        → (done ≡ [] → out ≡ [])
        → sum_of (λ (c : Completion). only id c.id) done ≡ 0
        → out ≡ []
    unfolding sum_of
    nothing_silent out [] h alone e = alone refl
    nothing_silent out (c ∷ done) h alone e = absurd (zero_only id c.id (omega (arith, e)) h.0.0)

    -- The send is awaited still.
    pub Awaits-Adds :
        (t : Sender) (out : List Delivery) (done : List Completion)
        → Adds id s out done
        → InFlight (IsKnown message (IsCommandOr message id)) t
        → tally (only id) t ≡ tally (only id) s
        → t.completed ≡ s.completed ++ done
        → Awaits message id before gone s
        → Awaits message id before (gone ++ out) t
    Awaits-Adds t out done (others nothing differ) flying same e v =
        let still : gone ++ out ≡ gone = ap (λ xs. gone ++ xs) nothing ∙ append-nil gone in
        record {
          flying = flying;
          once = same ∙ v.once;
          reported = subst (All (Reported (gone ++ out))) (sym e) (
              All-append (Reported (gone ++ out)) s.completed done
                (All-map (λ c r i. still ∙ r i) s.completed v.reported)
                (All-map (λ c d i. absurd (d i)) done differ));
          silent = λ none. still ∙ v.silent (omega (arith, none, finished-append t done e));
        }
    Awaits-Adds t out done (itself new each alone) flying same e v =
        let start : gone ++ out ≡ before ++ out = ap (λ xs. xs ++ out) (v.silent new) in
        record {
          flying = flying;
          once = same ∙ v.once;
          reported = subst (All (Reported (gone ++ out))) (sym e) (
              All-append (Reported (gone ++ out)) s.completed done
                (All-map (λ c d i. absurd (d.1 i)) s.completed
                  (none_left (λ c. Unit {0}) id (λ (c : Completion). c.id) s.completed
                    (unfold finished in new) (trivially s.completed)))
                (All-map (λ c r i. start ∙ ap (λ xs. before ++ xs) r.1) done each));
          silent = λ none.
              start
              ∙ ap (λ xs. before ++ xs)
                  (nothing_silent out done each alone
                    (omega (arith, none, finished-append t done e)))
              ∙ append-nil before;
        }
