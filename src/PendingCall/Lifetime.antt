-- ===== src/PendingCall/Lifetime.antt =====
-- src/pending-call.cc: the states that a pending call goes through from its creation to its
-- destruction.
use dbuscc.Base.{
  ℕ, ◌≡◌, ◌≢◌, ◌⊎◌, inl, inr, refl, ◌∙◌, none, some, Outcome, done, ◌>>◌, if◌then◌else◌, arith, sym,
  ap, assert, assert_ptr, >>=-eq-done, Bool-cases, subst,
}
use dbuscc.PendingCall.{
  PendingApi, PendingCall, State, CallState, state_pending, state_error, state_timeout,
  state_completed, state_canceled, is_canceled, is_pending, take_reply, set_state, notify, cancel,
  destroy, new_call,
}

-- The states that the code leaves a call in.
pub data IsSettled : CallState → Type 0 where
  pending : IsSettled state_pending
  completed : IsSettled state_completed
  canceled : IsSettled state_canceled

IsSettled-ne : {x : CallState} → IsSettled x → (x ≢ state_error) × (x ≢ state_timeout)
IsSettled-ne pending = (λ e. cc, λ e. cc)
IsSettled-ne completed = (λ e. cc, λ e. cc)
IsSettled-ne canceled = (λ e. cc, λ e. cc)

module _ (api : PendingApi) {Env : Type 0} where
  -- A live call keeps its raw pending call.
  pub record IsLive (r : ℕ) (s : State api Env) : Type 0 where
    pub raw : s.call.raw ≡ some r
    pub state : IsSettled s.call.state

  IsLive-cancel :
      (r : ℕ) (s : State api Env)
      → IsLive r s
      → (t : State api Env) × (cancel api s ≡ done t) × IsLive r t × (t.call.state ≡ state_canceled)
  unfolding cancel set_state
  IsLive-cancel r s v = (
    set_state api state_canceled (record s { world = api.cancel s.world r }),
    simp (v.raw),
    record { raw = v.raw; state = canceled },
    refl,
  )

  take_reply-raw : (m : ℕ) (s : State api Env) → (take_reply api m s).call.raw ≡ s.call.raw
  unfolding take_reply set_state
  take_reply-raw m s = ground arith

  -- Slots reach the members of a call only through its methods.
  abbrev pub IsPublic : (State api Env → Outcome (State api Env)) → Type 0
  IsPublic fire =
      (s s' : State api Env)
      → fire s ≡ done s'
      → (s'.call.raw ≡ s.call.raw)
        × ((s'.call.state ≡ s.call.state) ⊎ (s'.call.state ≡ state_canceled))

  module _ (fire : State api Env → Outcome (State api Env)) (public : IsPublic fire) where
    IsLive-fire : (r : ℕ) (s s' : State api Env) → IsLive r s → fire s ≡ done s' → IsLive r s'
    IsLive-fire r s s' v e =
        let (raw, state) = public s s' e in
        record {
          raw = raw ∙ v.raw;
          state = elim state [
            | inl k ↦ subst IsSettled (sym k) v.state
            | inr k ↦ subst IsSettled (sym k) canceled
          ];
        }

    IsLive-replied :
        (r : ℕ) (s s' : State api Env) (m : ℕ) (w : api.World)
        → IsLive r s
        → (if is_canceled s.call.state
            then done (record s { world = api.message_unref w m })
            else (do
              assert (is_pending s.call.state)
              fire (set_state api state_completed (take_reply api m (record s { world = w })))))
          ≡ done s'
        → IsLive r s'
    unfolding set_state
    IsLive-replied r s s' m w v e = elim (Bool-cases (is_canceled s.call.state)) [
      | inl c ↦
          let same : s.call ≡ s'.call = ground (arith, e, c) in
          record {
            raw = ap (λ (x : PendingCall api). x.raw) (sym same) ∙ v.raw;
            state = subst (λ (x : PendingCall api). IsSettled x.state) same v.state;
          }
      | inr c ↦
          let (u, p, q) = >>=-eq-done (assert (is_pending s.call.state)) _ (rw c at e) in
          IsLive-fire r (set_state api state_completed (take_reply api m (record s { world = w })))
            s'
            (record { raw = take_reply-raw m (record s { world = w }) ∙ v.raw; state = completed })
            q
    ]

    IsLive-notify :
        (r : ℕ) (s s' : State api Env) → IsLive r s → notify api fire s ≡ done s' → IsLive r s'
    unfolding notify set_state
    IsLive-notify r s s' v e =
        let (r', e1, q1) = >>=-eq-done (assert_ptr s.call.raw) _ e in
        let (u, e2, q2) = >>=-eq-done (assert (api.get_completed s.world r')) _ q1 in
        let (m, e3, q3) = >>=-eq-done (assert_ptr (api.steal_reply s.world r').0) _ q2 in
        IsLive-replied r s s' m _ v q3

    -- One call of a method, by libdbus or by a client.
    pub data Step (s s' : State api Env) : Type 0 where
      notifies : notify api fire s ≡ done s' → Step s s'
      cancels : cancel api s ≡ done s' → Step s s'

    pub data Reach (s : State api Env) : State api Env → Type 0 where
      here : Reach s s
      next : {t u : State api Env} → Reach s t → Step t u → Reach s u

    IsLive-Step : (r : ℕ) (s s' : State api Env) → IsLive r s → Step s s' → IsLive r s'
    IsLive-Step r s s' v (notifies e) = IsLive-notify r s s' v e
    IsLive-Step r s s' v (cancels e) =
        let (t, p, l, _) = IsLive-cancel r s v in
        let same : t ≡ s' = cc (p, e) in subst (IsLive r) same l

    pub IsLive-Reach : (r : ℕ) {s s' : State api Env} → IsLive r s → Reach s s' → IsLive r s'
    IsLive-Reach r v here = v
    IsLive-Reach r v (next l st) = IsLive-Step r _ _ (IsLive-Reach r v l) st

    pub IsLive-new :
        (r : ℕ) (w : api.World) (env : Env) (s : State api Env)
        → new_call api (some r) w env ≡ done s
        → IsLive r s
    unfolding new_call
    IsLive-new r w env s e =
        let raw : some r ≡ s.call.raw = ground (arith, e) in
        let state : state_pending ≡ s.call.state = ground (arith, e) in
        record { raw = sym raw; state = subst IsSettled state pending }

    -- Whatever replies libdbus has and whenever the call is canceled: a call is never seen in the
    -- states STATE_ERROR and STATE_TIMEOUT, and until its destructor runs the raw pending call is
    -- there, so that cancel returns, in the state STATE_CANCELED, and so does the destructor.
    pub Reach-settled :
        (r : ℕ) (w : api.World) (env : Env) (s s' : State api Env)
        → new_call api (some r) w env ≡ done s
        → Reach s s'
        → (s'.call.state ≢ state_error)
          × (s'.call.state ≢ state_timeout)
          × ((t : State api Env) × (cancel api s' ≡ done t) × (t.call.state ≡ state_canceled))
          × ((t : State api Env) × (destroy api s' ≡ done t) × (t.call.raw ≡ none))
    unfolding destroy cancel set_state
    Reach-settled r w env s s' e l =
        let v = IsLive-new r w env s e in
        let v' = IsLive-Reach r v l in
        let (t, p, k, c) = IsLive-cancel r s' v' in
        let (ne, nt) = IsSettled-ne v'.state in
        (
          ne,
          nt,
          (t, p, c),
          (
            record s' {
              call = record (s'.call) { raw = none; state = state_canceled };
              world = api.pending_unref (api.cancel s'.world r) r;
            },
            simp (v'.raw),
            refl,
          ),
        )
