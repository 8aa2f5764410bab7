-- ===== src/PendingCall/Balance.antt =====
-- src/pending-call.cc: the references to the replies that libdbus hands to a pending call.
use dbuscc.Base.{
  ℕ, ◌+◌, ◌≡◌, ◌≢◌, inl, inr, refl, ◌∙◌, true, false, Option, none, some, Outcome, done, arith, sym,
  ap, assert, assert_ptr, >>=-eq-done, Bool-cases, subst,
}
use dbuscc.PendingCall.{
  PendingApi, State, MessageType, state_pending, state_completed, state_canceled, is_pending,
  is_method_return, notify, cancel, destroy, destroy_members, new_call, set_state,
}
use dbuscc.PendingCall.Completion.{IsTaken, notify_pending, notify_late}
use dbuscc.PendingCall.Lifetime.{
  IsLive, IsPublic, IsLive-Reach, IsLive-new, notifies, cancels, Reach, here, next,
}
use dbuscc.PendingCall.Members.{
  is_pending-only, assert_ptr-done, assert-done, held, members-alone, members-shared, given_back,
}

module _ (api : PendingApi) {Env : Type 0} where
  -- The program has the references that it had, and the one to the reply; a call that waits has no
  -- reply.
  record IsBalanced (w : api.World) (s : State api Env) : Type 0 where
    refs : (n : ℕ) → api.references s.world n ≡ api.references w n + held s.call.reply_message n
    waiting : s.call.state ≡ state_pending → s.call.reply_message ≡ none

  -- Slots leave the reply and the references of the call alone.
  abbrev pub IsQuiet : (State api Env → Outcome (State api Env)) → Type 0
  IsQuiet fire =
      (s s' : State api Env)
      → fire s ≡ done s'
      → (s'.call.reply_message ≡ s.call.reply_message)
        × ((n : ℕ) → api.references s'.world n ≡ api.references s.world n)

  module _ (fire : State api Env → Outcome (State api Env)) (public : IsPublic api fire)
      (quiet : IsQuiet fire)
      (set_notify-references : (w : api.World) (r n : ℕ)
        → api.references (api.set_notify w r) n ≡ api.references w n)
      (cancel-references : (w : api.World) (r n : ℕ)
        → api.references (api.cancel w r) n ≡ api.references w n)
      (unref-references : (w : api.World) (r n : ℕ)
        → api.references (api.pending_unref w r) n ≡ api.references w n) where
    taken-IsBalanced :
        (w : api.World) (s t s' : State api Env) (m : ℕ) (kind : MessageType)
        → IsBalanced w s
        → s.call.state ≡ state_pending
        → IsTaken api s m kind t
        → t.call.state ≡ state_completed
        → fire t ≡ done s'
        → IsBalanced w s'
    taken-IsBalanced w s t s' m kind v p taken done_now e =
        let (same_reply, same_refs) = quiet t s' e in
        let (raw, state) = public t s' e in
        let empty : (n : ℕ) → held s.call.reply_message n ≡ 0 =
          λ n. ap (λ (o : Option ℕ). held o n) (v.waiting p) in
        let now : (n : ℕ) → held s'.call.reply_message n ≡ held t.call.reply_message n =
          λ n. ap (λ (o : Option ℕ). held o n) same_reply in
        let moved : (n : ℕ)
            → api.references t.world n ≡ api.references s.world n + held t.call.reply_message n =
          λ n. elim (Bool-cases (is_method_return kind)) [
            | inl method ↦
                let reply : t.call.reply_message ≡ some m = ground (arith, taken.reply, method) in
                let one : held t.call.reply_message n ≡ held (some m) n =
                  ap (λ (o : Option ℕ). held o n) reply in
                let more : api.references t.world n ≡ api.references s.world n + held (some m) n =
                  ground (arith, taken.references n, method) in
                omega (arith, one, more)
            | inr other ↦
                let reply : t.call.reply_message ≡ s.call.reply_message =
                  ground (arith, taken.reply, other) in
                let one : held t.call.reply_message n ≡ held s.call.reply_message n =
                  ap (λ (o : Option ℕ). held o n) reply in
                let more : api.references t.world n ≡ api.references s.world n =
                  ground (arith, taken.references n, other) in
                omega (arith, one, more, empty n)
          ] in
        record {
          refs = λ n. omega (arith, same_refs n, now n, moved n, v.refs n, empty n);
          waiting =
              λ q. elim state [ inl k ↦ absurd (cc (q, k, done_now)) | inr k ↦ absurd (cc (q, k)) ];
        }

    notify-reply :
        (r : ℕ) (s s' : State api Env)
        → s.call.raw ≡ some r
        → notify api fire s ≡ done s'
        → (api.get_completed s.world r ≡ true)
          × (m : ℕ) × (api.steal_reply s.world r ≡ (some m, (api.steal_reply s.world r).1))
    unfolding notify
    notify-reply r s s' raw e =
        let (r', e1, q1) = >>=-eq-done (assert_ptr s.call.raw) _ e in
        let (u, e2, q2) = >>=-eq-done (assert (api.get_completed s.world r')) _ q1 in
        let (m, e3, q3) = >>=-eq-done (assert_ptr (api.steal_reply s.world r').0) _ q2 in
        let same : some r' ≡ some r = sym (assert_ptr-done s.call.raw e1) ∙ raw in
        let hit : r' ≡ r = cc (same) in
        let ready : api.get_completed s.world r' ≡ true =
          assert-done (api.get_completed s.world r') e2 in
        let reply : (api.steal_reply s.world r').0 ≡ some m =
          assert_ptr-done (api.steal_reply s.world r').0 e3 in
        subst
          (λ (k : ℕ).
            (api.get_completed s.world k ≡ true)
            × (n : ℕ) × (api.steal_reply s.world k ≡ (some n, (api.steal_reply s.world k).1)))
          hit (ready, m, ap (λ (o : Option ℕ). (o, (api.steal_reply s.world r').1)) reply)

    notify-IsBalanced :
        (w : api.World) (r : ℕ) (s s' : State api Env)
        → IsLive api r s
        → notify api fire s ≡ done s'
        → IsBalanced w s
        → IsBalanced w s'
    notify-IsBalanced w r s s' live e v =
        let (ready, m, stolen) = notify-reply r s s' live.raw e in
        let w' = (api.steal_reply s.world r).1 in
        elim (Bool-cases (is_pending s.call.state)) [
          | inl waits ↦
              let p = is_pending-only s.call.state waits in
              let (t, q, now, taken) = notify_pending api s m w' r stolen fire live.raw ready p in
              taken-IsBalanced w s t s' m (api.message_get_type w' m) v p taken now (sym q ∙ e)
          | inr over ↦
              let late : s.call.state ≢ state_pending = λ p. absurd (ground (arith, over, p)) in
              elim (notify_late api s m w' r stolen fire live.raw ready 0 late) [
                | inl (c, q, _) ↦
                    let same : record s { world = api.message_unref w' m } ≡ s' = cc (q, e) in
                    subst (IsBalanced w) same (record {
                      refs = λ n. given_back api r m s.world w' stolen n ∙ v.refs n;
                      waiting = v.waiting;
                    })
                | inr (c, q) ↦ absurd (cc (q, e))
              ]
        ]

    cancel-IsBalanced :
        (w : api.World) (r : ℕ) (s s' : State api Env)
        → IsLive api r s
        → cancel api s ≡ done s'
        → IsBalanced w s
        → IsBalanced w s'
    unfolding cancel set_state
    cancel-IsBalanced w r s s' live e v =
        let t : State api Env = record s {
          world = api.cancel s.world r;
          call = record (s.call) { state = state_canceled };
        } in
        let same : t ≡ s' = ground (arith, live.raw, e) in
        subst (IsBalanced w) same (record {
          refs = λ n. cancel-references s.world r n ∙ v.refs n;
          waiting = λ p. absurd (cc (p));
        })

    Reach-IsBalanced :
        (w : api.World) (r : ℕ) {s s' : State api Env}
        → IsLive api r s
        → Reach api fire public s s'
        → IsBalanced w s
        → IsBalanced w s'
    Reach-IsBalanced w r live here v = v
    Reach-IsBalanced w r live (next {t} {u} run (notifies e)) v =
        notify-IsBalanced w r t u (IsLive-Reach api fire public r live run) e
          (Reach-IsBalanced w r live run v)
    Reach-IsBalanced w r live (next {t} {u} run (cancels e)) v =
        cancel-IsBalanced w r t u (IsLive-Reach api fire public r live run) e
          (Reach-IsBalanced w r live run v)

    new-IsBalanced :
        (w : api.World) (r : ℕ) (env : Env) (s : State api Env)
        → new_call api (some r) w env ≡ done s
        → IsBalanced w s
    unfolding new_call
    new-IsBalanced w r env s e =
        let t : State api Env = record {
          call = record {
            raw = some r;
            state = state_pending;
            reply_message = none;
            error = api.errors.error_init;
          };
          world = api.set_notify w r;
          env = env;
        } in
        let same : t ≡ s = cc (e) in
        subst (IsBalanced w) same
          (record { refs = λ n. omega (arith, set_notify-references w r n); waiting = λ p. refl })

    -- Slots reach a call through its methods and leave its reply and the references alone, and
    -- so do the functions of libdbus on a pending call. Over any replies and calls of cancel,
    -- the program has for every message the references that it had before the call was made, and
    -- one to the reply that the call holds. The destructor returns. Once the members are
    -- destroyed, the program has the references from before, when no client shares the return
    -- message; a client that does keeps the one to the reply. No reply leaks and none is given
    -- back twice.
    pub replies_given_back :
        (r : ℕ) (w : api.World) (env : Env) (s s' : State api Env) (n : ℕ)
        → new_call api (some r) w env ≡ done s
        → Reach api fire public s s'
        → (api.references s'.world n ≡ api.references w n + held s'.call.reply_message n)
          × ((t : State api Env) × (destroy api s' ≡ done t)
              × (api.references (destroy_members api false t) n ≡ api.references w n)
              × (api.references (destroy_members api true t) n
                  ≡ api.references w n + held s'.call.reply_message n))
    unfolding destroy cancel set_state
    replies_given_back r w env s s' n e run =
        let live0 = IsLive-new api fire public r w env s e in
        let live = IsLive-Reach api fire public r live0 run in
        let v = Reach-IsBalanced w r live0 run (new-IsBalanced w r env s e) in
        let t : State api Env = record s' {
          call = record (s'.call) { raw = none; state = state_canceled };
          world = api.pending_unref (api.cancel s'.world r) r;
        } in
        let same : (k : ℕ) → api.references t.world k ≡ api.references s'.world k =
          λ k. unref-references (api.cancel s'.world r) r k ∙ cancel-references s'.world r k in
        (
          v.refs n,
          (
            t,
            simp (live.raw),
            members-alone api t w n (λ k. same k ∙ v.refs k),
            members-shared api t n ∙ (same n ∙ v.refs n),
          ),
        )
