-- ===== src/PendingCall/Completion.antt =====
-- src/pending-call.cc: what pending_call::notify does with the reply that libdbus has for it.
use dbuscc.Base.{
  ℕ, ◌+◌, ◌<◌, ◌≡◌, ◌≢◌, refl, true, false, ◌&&◌, some, Outcome, done, abort, ◌==◌, if◌then◌else◌,
  arith, ◌⊎◌, inl, inr, Bool-cases,
}
use dbuscc.PendingCall.{
  PendingApi, State, CallState, state_pending, state_error, state_timeout, state_completed,
  state_canceled, MessageType, error, method_return, is_method_return, is_pending, is_canceled,
  set_state, take_reply, notify, invalid, method_call, signal,
}

canceled : (x : CallState) → is_canceled x ≡ true → x ≡ state_canceled
canceled state_canceled e = refl
canceled state_pending e = cc
canceled state_error e = cc
canceled state_timeout e = cc
canceled state_completed e = cc

not_canceled : (x : CallState) → is_canceled x ≡ false → x ≢ state_canceled
not_canceled x e p = ground (arith, e, p)

not_pending : (x : CallState) → x ≢ state_pending → is_pending x ≡ false
not_pending state_pending n = absurd (n refl)
not_pending _ n = refl

module _ (api : PendingApi) {Env : Type 0} where
  -- How the state before the slots run relates to the one in which the reply `m` came.
  pub record IsTaken (s : State api Env) (m : ℕ) (kind : MessageType) (t : State api Env)
      : Type 0 where
    pub same_raw : t.call.raw ≡ s.call.raw
    pub env : t.env ≡ s.env
    pub reply :
        t.call.reply_message ≡ (if is_method_return kind then some m else s.call.reply_message)
    pub kept_error : kind ≢ error → t.call.error ≡ s.call.error
    pub references :
        (n : ℕ)
        → api.references t.world n
          ≡ api.references s.world n + (if is_method_return kind && n == m then 1 else 0)

  module _ (s : State api Env) (m : ℕ) (w : api.World) where
    taken : State api Env
    taken = record s { world = w }

    kinds :
        (kind : MessageType)
        → (kind ≡ error)
          ⊎ ((kind ≡ method_return) ⊎ ((is_method_return kind ≡ false) × (kind ≢ error)))
    kinds error = inl refl
    kinds method_return = inr (inl refl)
    kinds invalid = inr (inr (refl, λ e. cc))
    kinds method_call = inr (inr (refl, λ e. cc))
    kinds signal = inr (inr (refl, λ e. cc))

    module _ (r : ℕ) (stolen : api.steal_reply s.world r ≡ (some m, w)) where
      owns : 0 < api.references w m
      owns = ground (arith, api.references-steal_reply s.world w r m m stolen)

      take_reply-IsTaken :
          IsTaken s m
            (api.message_get_type w m)
            (set_state api state_completed (take_reply api m taken))
      unfolding take_reply taken set_state
      take_reply-IsTaken = elim (kinds (api.message_get_type w m)) [
        | inl e ↦ record {
          same_raw = ground (arith, api.set_error_message w s.call.error m e);
          env = ground (arith, api.set_error_message w s.call.error m e);
          reply = ground (arith, api.set_error_message w s.call.error m e);
          kept_error = λ n. absurd (n e);
          references = λ n. ground (
            arith,
            api.set_error_message w s.call.error m e,
            api.references-steal_reply s.world w r m n stolen,
            api.references-message_unref w m n owns,
          );
        }
        | inr (inl e) ↦
            let other = api.set_error_other w s.call.error m (λ x. cc) in
            record {
              same_raw = ground (arith, other, e);
              env = ground (arith, other, e);
              reply = ground (arith, other, e);
              kept_error = λ n. ground (arith, other, e);
              references =
                  λ n. ground (arith, other, e, api.references-steal_reply s.world w r m n stolen);
            }
        | inr (inr (e, x)) ↦
            let other = api.set_error_other w s.call.error m x in
            record {
              same_raw = ground (arith, other, e);
              env = ground (arith, other, e);
              reply = ground (arith, other, e);
              kept_error = λ n. ground (arith, other, e);
              references = λ n. ground (
                arith,
                other,
                e,
                api.references-steal_reply s.world w r m n stolen,
                api.references-message_unref w m n owns,
              );
            }
      ]

      module _ (fire : State api Env → Outcome (State api Env)) (here : s.call.raw ≡ some r)
          (ready : api.get_completed s.world r ≡ true) where
        -- When libdbus has a reply for a pending call, notify invokes on_completion once, in the
        -- state STATE_COMPLETED whatever the reply is, an error or a timeout too. A method return
        -- becomes the reply and keeps the one reference that came with it; any other message is
        -- given back and leaves the reply alone, and only an error message touches the error.
        pub notify_pending :
            s.call.state ≡ state_pending
            → (t : State api Env) × (notify api fire s ≡ fire t)
              × (t.call.state ≡ state_completed)
              × IsTaken s m (api.message_get_type w m) t
        unfolding notify taken
        notify_pending p =
            let waits : is_pending s.call.state ≡ true = ground (arith, p) in
            let kept : is_canceled s.call.state ≡ false = ground (arith, p) in
            (
              set_state api state_completed (take_reply api m taken),
              simp (here, ready, stolen, waits, kept),
              refl,
              take_reply-IsTaken,
            )

        -- When the call was canceled before its reply came, notify gives the message back and
        -- invokes nothing; a reply in any other state but STATE_PENDING, such
        -- as a second one for a completed call, fails an assertion.
        pub notify_late :
            (n : ℕ)
            → (s.call.state ≢ state_pending)
            → ((s.call.state ≡ state_canceled)
                × (notify api fire s ≡ done (record s { world = api.message_unref w m }))
                × (api.references (api.message_unref w m) n ≡ api.references s.world n))
              ⊎ ((s.call.state ≢ state_canceled) × (notify api fire s ≡ abort))
        unfolding notify
        notify_late n p = elim (Bool-cases (is_canceled s.call.state)) [
          | inl c ↦ inl (
            canceled s.call.state c,
            ground (arith, here, ready, stolen, c),
            ground (
              arith,
              api.references-steal_reply s.world w r m n stolen,
              api.references-message_unref w m n owns,
            ),
          )
          | inr c ↦ inr (
            (λ x. let d = not_canceled s.call.state c in d x),
            ground (arith, here, ready, stolen, c, not_pending s.call.state p),
          )
        ]
