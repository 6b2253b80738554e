-- ===== src/Example/Program/Calls.antt =====
-- The beginning and the end of a send that a coroutine awaits, and what the session does in between.
use smpp.Common.{ℕ, ◌≤◌, ◌≡◌, ◌≢◌, refl, ap, sym, subst, ◌∙◌, inl, inr, arith}
use smpp.Common.{List, [], ◌∷◌, ◌++◌, All, All-append, All-remove, append-nil}
use smpp.Net.Session.{ErrorCode}
use smpp.Net.Session.Send.{SendOp, Write, Completion, Sender, attempt, IsOp}
use smpp.Net.Session.Send.Once.{sum_of, sum_of-remove, only, pending, finished, tally-attempt}
use smpp.Net.Session.Send.Effects.{attempt-Goes}
use smpp.Net.Session.Stream.{Delivery}
use smpp.Net.Session.Connection.{Message, request_of, response_of, command_of, went_out, call}
use smpp.Net.Session.Connection.Moves.{IsKnown, IsReport, Moves, only-same, went_out-command}
use smpp.Net.Session.Pair.{IsPduMessage}
use smpp.Example.Program.Trace.{
  IsCommand, IsCommand-IsPduMessage, IsCommandId, IsCommandOr, Quiet, Awaits,
}
use smpp.Example.Program.Sending.{
  All-map, none_left, Adds, others, itself, Awaits-Adds, Reported, trivially,
}

went_out-IsCommand :
    (m : Message) (ec : ErrorCode) (number : ℕ) → IsCommand m → went_out ec m number ≡ []
went_out-IsCommand (request_of v) ec number c = absurd c
went_out-IsCommand (response_of v a b) ec number c = absurd c
went_out-IsCommand (command_of id a) ec number c =
    went_out-command (λ j. command_of id a) ec id a number

module _ (message : ℕ → Message) where
  -- The reports of commands are empty.
  commands_silent :
      (id : ℕ) (out : List Delivery) (done : List Completion)
      → IsCommandId message id
      → All (IsReport message id out) done
      → (done ≡ [] → out ≡ [])
      → out ≡ []
  commands_silent id out [] c each alone = alone refl
  commands_silent id out (d ∷ done) c each alone =
      each.0.1 ∙ went_out-IsCommand (message id) d.ec d.sequence_number c

  pub Moves-Quiet :
      {out : List Delivery} {s t : Sender}
      → Moves message (IsCommandId message) out s t
      → Quiet message t × (out ≡ [])
  Moves-Quiet mv = (mv.flying, commands_silent mv.id _ mv.done mv.known mv.each mv.silent)

  another : (id j : ℕ) → IsPduMessage (message id) → IsCommandId message j → j ≢ id
  another id j p c e = IsCommand-IsPduMessage (message id) p (subst (IsCommandId message) e c)

  -- Where the awaited send is not in flight, commands are left.
  left_commands :
      {A : Type 0} (f : A → SendOp) (id : ℕ) (xs : List A)
      → sum_of (λ x. only id (f x).id) xs ≡ 0
      → All (λ x. IsKnown message (IsCommandOr message id) (f x)) xs
      → All (λ x. IsKnown message (IsCommandId message) (f x)) xs
  left_commands f id xs e h =
      All-map (λ x (k, differs). (k.0, elim k.1 [ inl c ↦ c | inr i ↦ absurd (differs i) ])) xs
        (none_left (λ x. IsKnown message (IsCommandOr message id) (f x)) id (λ x. (f x).id) xs e h)

  module _ (id : ℕ) (p : IsPduMessage (message id)) (before gone : List Delivery) (s : Sender)
      (v : Awaits message id before gone s) where
    Moves-Adds :
        {out : List Delivery} {t : Sender} (mv : Moves message (IsCommandOr message id) out s t)
        → Adds message id s out mv.done
    Moves-Adds {out} mv = elim mv.known [
      | inl c ↦
          others (commands_silent mv.id out mv.done c mv.each mv.silent)
            (All-map (λ d r i. another id mv.id p c (sym r.0 ∙ i)) mv.done mv.each)
      | inr e ↦
          let there : 1 ≤ pending (only id) s =
            subst (λ k. 1 ≤ pending (only k) s) e mv.was_pending in
          itself (omega (arith, there, v.once))
            (subst (λ k. All (IsReport message k out) mv.done) e mv.each) mv.silent
    ]

    pub Moves-Awaits :
        {out : List Delivery} {t : Sender}
        → Moves message (IsCommandOr message id) out s t
        → Awaits message id before (gone ++ out) t
    Moves-Awaits {out} {t} mv =
        Awaits-Adds message id before gone s t out mv.done (Moves-Adds mv) mv.flying
          (mv.same_tally id) mv.all_completed v

    -- The session sends a command.
    pub attempt-Awaits :
        (j : ℕ)
        → IsCommandId message j
        → IsOp (call message j)
        → Awaits message id before gone (attempt (call message j) s)
    attempt-Awaits j c h =
        let g =
          attempt-Goes (IsKnown message (IsCommandOr message id)) (λ d. d.id ≡ j) (call message j) s
            (refl, inl c) refl v.flying in
        let other : only id j ≡ 0 = ground (arith, another id j p c) in
        subst (λ xs. Awaits message id before xs (attempt (call message j) s)) (append-nil gone)
          (Awaits-Adds message id before gone s _ [] g.done
            (others refl (All-map (λ d e i. another id j p c (sym e ∙ i)) g.done g.each)) g.flying
            (omega (arith, other, tally-attempt (only id) (call message j) s h)) g.all_completed v)

    pub renumber-Awaits : (n : ℕ) → Awaits message id before gone (record s { sequence_number = n })
    renumber-Awaits n = record {
      flying = record {
        waiting_ops = v.flying.waiting_ops;
        woken_ops = v.flying.woken_ops;
        writing_ops = v.flying.writing_ops;
      };
      once = unfold pending finished in v.once;
      reported = v.reported;
      silent = unfold finished in v.silent;
    }

    -- The receive operation takes the completion of its command.
    pub taken-Awaits :
        (done : Completion) (front behind : List Completion)
        → IsCommandId message done.id
        → s.completed ≡ front ++ (done ∷ behind)
        → Awaits message id before gone (record s { completed = front ++ behind })
    taken-Awaits done front behind c e =
        let other : only id done.id ≡ 0 = ground (arith, another id done.id p c) in
        let less : finished (only id) s
            ≡ finished (only id) (record s { completed = front ++ behind }) =
          unfold finished in
          omega (
            arith,
            other,
            sum_of-remove (λ (d : Completion). only id d.id) front behind done s.completed e,
          ) in
        record {
          flying = record {
            waiting_ops = v.flying.waiting_ops;
            woken_ops = v.flying.woken_ops;
            writing_ops = v.flying.writing_ops;
          };
          once = (unfold pending in omega (arith, less, v.once));
          reported =
              (All-remove (Reported message id before gone s gone) front behind done s.completed e
                v.reported).1;
          silent = λ none. v.silent (less ∙ none);
        }

    -- The completion of the send has come.
    pub completed-Quiet :
        (done : Completion) (front behind : List Completion)
        → s.completed ≡ front ++ (done ∷ behind)
        → done.id ≡ id
        → Quiet message s × (gone ≡ before ++ went_out done.ec (message id) done.sequence_number)
    completed-Quiet done front behind e same =
        let over : pending (only id) s ≡ 0 =
          unfold finished in
          omega (
            arith,
            v.once,
            subst (λ k. only id k ≡ 1) (sym same) (only-same message id),
            sum_of-remove (λ (d : Completion). only id d.id) front behind done s.completed e,
          ) in
        (
          record {
            waiting_ops =
                left_commands (λ op. op) id s.waiting (unfold pending in omega (arith, over))
                  v.flying.waiting_ops;
            woken_ops =
                left_commands (λ op. op) id s.woken (unfold pending in omega (arith, over))
                  v.flying.woken_ops;
            writing_ops =
                left_commands (λ (w : Write). w.op) id s.writing
                  (unfold pending in omega (arith, over)) v.flying.writing_ops;
          },
          (All-remove (Reported message id before gone s gone) front behind done s.completed e
                v.reported).0
              same,
        )

  -- A send begins, with a new id.
  pub attempt-begins :
      (id : ℕ) (gone : List Delivery) (s : Sender)
      → IsOp (call message id)
      → pending (only id) s ≡ 0
      → finished (only id) s ≡ 0
      → Quiet message s
      → Awaits message id gone gone (attempt (call message id) s)
  attempt-begins id gone s h new never v =
      let g =
        attempt-Goes (IsKnown message (IsCommandOr message id)) (IsReport message id [])
          (call message id) s (refl, inr refl) (refl, refl)
          (record {
            waiting_ops = All-map (λ op k. (k.0, inl k.1)) s.waiting v.waiting_ops;
            woken_ops = All-map (λ op k. (k.0, inl k.1)) s.woken v.woken_ops;
            writing_ops = All-map (λ (w : Write) k. (k.0, inl k.1)) s.writing v.writing_ops;
          }) in
      record {
        flying = g.flying;
        once = omega (
          arith,
          new,
          never,
          only-same message id,
          tally-attempt (only id) (call message id) s h,
        );
        reported = subst (All (Reported message id gone gone s gone)) (sym g.all_completed) (
            All-append (Reported message id gone gone s gone) s.completed g.done
              (All-map (λ c d i. absurd (d.1 i)) s.completed
                (none_left (λ c. Unit {0}) id (λ (c : Completion). c.id) s.completed
                  (unfold finished in never) (trivially s.completed)))
              (All-map (λ c r i. sym (append-nil gone) ∙ ap (λ xs. gone ++ xs) r.1) g.done g.each));
        silent = λ none. refl;
      }

  -- While no send is awaited the session sends a command.
  pub attempt-Quiet :
      (j : ℕ) (s : Sender)
      → IsCommandId message j
      → Quiet message s
      → Quiet message (attempt (call message j) s)
  attempt-Quiet j s c v =
      (attempt-Goes (IsKnown message (IsCommandId message)) (λ d. Unit {0}) (call message j) s
        (refl, c) tt v).flying

  pub renumber-Quiet :
      (n : ℕ) (s : Sender) → Quiet message s → Quiet message (record s { sequence_number = n })
  renumber-Quiet n s v = record {
    waiting_ops = v.waiting_ops;
    woken_ops = v.woken_ops;
    writing_ops = v.writing_ops;
  }

  pub taken-Quiet :
      (left : List Completion) (s : Sender)
      → Quiet message s
      → Quiet message (record s { completed = left })
  taken-Quiet left s v = record {
    waiting_ops = v.waiting_ops;
    woken_ops = v.woken_ops;
    writing_ops = v.writing_ops;
  }
