-- ===== src/Signal/Shows.antt =====
-- include/yash.hpp: the states of a signal and of the connections of a client that stand for a
-- list of slots, over the calls of the client.
use dbuscc.Signal.Connections.{nth-below, nth-beyond, nth-snoc, length-set_nth, nth-set_nth}
use dbuscc.Signal.View.{view, view-frame, view-append, strike-unlisted, view-erase_first}
use dbuscc.Base.{
  if◌then◌else◌, ◌<◌, ◌⊎◌, Option, contains-append, contains_below, subst, length-append, ℕ, ◌+◌,
  ◌≡◌, refl, ◌==◌, true, false, none, some, List, [], ◌∷◌, ◌++◌, contains, update, length, done,
  arith, Bool-cases, Option-cases, inl, inr, ap, ◌∙◌, sym, not-contains_below,
}
use dbuscc.Signal.{Connection, disconnect, Signal, empty_signal, erase_first, connected}
use dbuscc.Signal.Invariant.{
  IsSignal, contains-erase_first, appended, connect-some, empty_signal-IsSignal, connect-IsSignal,
}
use dbuscc.Signal.Disconnect.{at, dropped, dropped-IsSignal, disconnect_listed}
use dbuscc.Signal.Listing.{
  Call, connects, disconnects, Listing, strike, list_call, list_calls, Session, nth, set_nth,
  new_session, is_connected, no_calls, make_call, make_calls,
}

module _ {Slot : Type 0} where
  -- The n-th connection while its callback is listed, and after that.
  abbrev pub IsNamed : Signal Slot → ℕ → Connection → Type 0
  IsNamed s n c = (c.cb ≡ some n) ⊎ ((c.cb ≡ none) × (contains n s.cb ≡ false))

  -- The state of a client that stands for a list.
  pub record Shows (t : Session Slot) (l : Listing Slot) : Type 0 where
    pub valid : IsSignal t.signal
    pub calls : t.signal.next ≡ l.calls
    pub count : length t.conns ≡ t.signal.next
    pub named : (n : ℕ) (c : Connection) → nth n t.conns ≡ some c → IsNamed t.signal n c
    pub idle : t.signal.locked ≡ []
    pub entries : view t.signal.callback t.signal.cb ≡ l.entries

  abbrev connected_session : Slot → Session Slot → Session Slot
  connected_session f t = record {
    conns = t.conns ++ at (t.signal.next) ∷ [];
    signal = appended f t.signal;
  }

  connect-IsNamed :
      (f : Slot) (t : Session Slot) (l : Listing Slot) (n : ℕ) (c : Connection)
      → Shows t l
      → nth n (t.conns ++ at (t.signal.next) ∷ []) ≡ some c
      → IsNamed (appended f t.signal) n c
  unfolding appended
  connect-IsNamed f t l n c v e = elim (nth-snoc n t.conns (at (t.signal.next)) c e) [
    | inl old ↦ elim (v.named n c old) [
      | inl p ↦ inl p
      | inr (p, q) ↦
          let less : n < t.signal.next = omega (arith, nth-below n t.conns c old, v.count) in
          inr (p, ground (arith, q, less, contains-append n t.signal.cb (t.signal.next ∷ [])))
    ]
    | inr (p, q) ↦
        let here : n ≡ t.signal.next = omega (arith, p, v.count) in
        inl (sym (ap (λ (x : Connection). x.cb) q) ∙ ap (λ (x : ℕ). some x) (sym here))
  ]

  connect-Shows :
      (f : Slot) (t : Session Slot) (l : Listing Slot)
      → Shows t l
      → Shows (connected_session f t) (list_call (connects f) l)
  unfolding appended
  connect-Shows f t l v =
      let s = t.signal in
      let m = update s.callback s.next (record { owner = true; fn = some f }) in
      record {
        valid = connect-IsSignal f s v.valid;
        calls = ap (λ (n : ℕ). n + 1) v.calls;
        count = length-append t.conns (at s.next ∷ []) ∙ ap (λ (n : ℕ). n + 1) v.count;
        named = λ n c e. connect-IsNamed f t l n c v e;
        idle = v.idle;
        entries =
            view-append m s.cb s.next f (ground arith)
            ∙ (ap (λ xs. xs ++ (s.next, f) ∷ [])
                  (view-frame s.callback s.next _ s.cb
                      (not-contains_below s.next s.cb v.valid.below)
                    ∙ v.entries)
                ∙ ap (λ (n : ℕ). l.entries ++ (n, f) ∷ []) v.calls);
      }

  dropped-Shows :
      (n : ℕ) (t : Session Slot) (l : Listing Slot)
      → Shows t l
      → contains n t.signal.cb ≡ true
      → Shows
          (record { conns = set_nth n (record { cb = none }) t.conns; signal = dropped n t.signal })
          (list_call (disconnects n) l)
  unfolding dropped
  dropped-Shows n t l v h =
      let s = t.signal in
      let left : (k : ℕ)
          → contains k (erase_first n s.cb) ≡ (if n == k then false else contains k s.cb) =
        λ k. contains-erase_first n k s.cb v.valid.distinct in
      let gone : contains n (erase_first n s.cb) ≡ false = ground (arith, left n) in
      record {
        valid = dropped-IsSignal n s v.valid;
        calls = v.calls;
        count = length-set_nth n (record { cb = none }) t.conns ∙ v.count;
        named = λ k c e. elim (nth-set_nth n k t.conns (record { cb = none }) c e) [
          | inl (p, q) ↦
              inr (sym (ap (λ (x : Connection). x.cb) q), ground (arith, p, gone, left k))
          | inr (p, old) ↦ elim (v.named k c old) [
            | inl q ↦ inl q
            | inr (q, r) ↦ inr (q, ground (arith, r, left k))
          ]
        ];
        idle = v.idle;
        entries =
            view-frame s.callback n (record { owner = false; fn = none }) (erase_first n s.cb) gone
            ∙ (view-erase_first s.callback n s.cb v.valid.distinct
                ∙ ap (λ (x : List (ℕ × Slot)). strike n x) v.entries);
      }

  -- A call of disconnect that leaves the signal alone.
  kept-Shows :
      (n : ℕ) (t : Session Slot) (l : Listing Slot) (conns : List Connection)
      → Shows t l
      → contains n t.signal.cb ≡ false
      → length conns ≡ length t.conns
      → ((k : ℕ) (c : Connection) → nth k conns ≡ some c → IsNamed t.signal k c)
      → Shows (record t { conns = conns }) (list_call (disconnects n) l)
  kept-Shows n t l conns v h len named = record {
    valid = v.valid;
    calls = v.calls;
    count = len ∙ v.count;
    named = named;
    idle = v.idle;
    entries =
        sym (strike-unlisted t.signal.callback n t.signal.cb h)
        ∙ ap (λ (x : List (ℕ × Slot)). strike n x) v.entries;
  }

  -- disconnect of a connection whose callback is gone.
  disconnect_expired :
      (n : ℕ) (c : Connection) (t : Session Slot) (l : Listing Slot)
      → Shows t l
      → IsNamed t.signal n c
      → contains n t.signal.cb ≡ false
      → disconnect c t.signal ≡ done (c, t.signal)
  unfolding disconnect
  disconnect_expired n c t l v name h = elim name [
    | inl p ↦ ground (arith, p, h, v.idle)
    | inr (p, q) ↦ ground (arith, p)
  ]

  disconnect-Shows :
      (n : ℕ) (c : Connection) (t : Session Slot) (l : Listing Slot)
      → Shows t l
      → nth n t.conns ≡ some c
      → (t' : Session Slot) × (make_call (disconnects n) t ≡ done t')
        × Shows t' (list_call (disconnects n) l)
  unfolding make_call
  disconnect-Shows n c t l v here = elim (Bool-cases (contains n t.signal.cb)) [
    | inl h ↦ elim (v.named n c here) [
      | inl p ↦
          let same : at n ≡ c = ap (λ (o : Option ℕ). record { cb = o }) (sym p) in
          let e : disconnect c t.signal ≡ done (record { cb = none }, dropped n t.signal) =
            subst
              (λ (x : Connection).
                disconnect x t.signal ≡ done (record { cb = none }, dropped n t.signal))
              same (disconnect_listed n t.signal v.valid h) in
          (
            record {
              conns = set_nth n (record { cb = none }) t.conns;
              signal = dropped n t.signal;
            },
            rw (make_call, here, e) refl,
            dropped-Shows n t l v h,
          )
      | inr (p, q) ↦ absurd (ground (arith, q, h))
    ]
    | inr h ↦
        let e = disconnect_expired n c t l v (v.named n c here) h in
        (
          record t { conns = set_nth n c t.conns },
          rw (make_call, here, e) refl,
          kept-Shows n t l (set_nth n c t.conns) v h (length-set_nth n c t.conns) λ k d i.
              elim (nth-set_nth n k t.conns c d i) [
                | inl (p, q) ↦
                    subst (λ (x : Connection). IsNamed t.signal k x) q
                      (subst (λ (x : ℕ). IsNamed t.signal x c) (sym p) (v.named n c here))
                | inr (p, old) ↦ v.named k d old
              ],
        )
  ]

  beyond-unlisted :
      (n : ℕ) (t : Session Slot) (l : Listing Slot)
      → Shows t l
      → nth n t.conns ≡ none
      → contains n t.signal.cb ≡ false
  beyond-unlisted n t l v e = elim (Bool-cases (contains n t.signal.cb)) [
    | inl h ↦
        let less = contains_below t.signal.next n t.signal.cb v.valid.below h in
        absurd (omega (arith, less, nth-beyond n t.conns e, v.count))
    | inr h ↦ h
  ]

  call-Shows :
      (c : Call Slot) (t : Session Slot) (l : Listing Slot)
      → Shows t l
      → (t' : Session Slot) × (make_call c t ≡ done t') × Shows t' (list_call c l)
  unfolding make_call
  call-Shows (connects f) t l v =
      (connected_session f t, rw (connect-some f t.signal) refl, connect-Shows f t l v)
  call-Shows (disconnects n) t l v = elim (Option-cases (nth n t.conns)) [
    | inl none_yet ↦
        let h = beyond-unlisted n t l v none_yet in
        (t, rw (make_call, none_yet) refl, kept-Shows n t l t.conns v h refl v.named)
    | inr (c, here) ↦ disconnect-Shows n c t l v here
  ]

  pub calls-Shows :
      (cs : List (Call Slot)) (t : Session Slot) (l : Listing Slot)
      → Shows t l
      → (t' : Session Slot) × (make_calls cs t ≡ done t') × Shows t' (list_calls cs l)
  unfolding make_calls
  calls-Shows [] t l v = (t, refl, v)
  calls-Shows (c ∷ cs) t l v =
      let (t1, p, v1) = call-Shows c t l v in
      let (t2, q, v2) = calls-Shows cs t1 (list_call c l) v1 in (t2, rw p q, v2)

  pub new-Shows : Shows new_session no_calls
  unfolding empty_signal view
  new-Shows = record {
    valid = empty_signal-IsSignal;
    calls = refl;
    count = refl;
    named = λ n c e. absurd (cc (e));
    idle = refl;
    entries = refl;
  }

  pub Shows-connected :
      (n : ℕ) (t : Session Slot) (l : Listing Slot)
      → Shows t l
      → is_connected n t ≡ contains n t.signal.cb
  unfolding connected
  Shows-connected n t l v = elim (Option-cases (nth n t.conns)) [
    | inl none_yet ↦ rw (is_connected, none_yet) (sym (beyond-unlisted n t l v none_yet))
    | inr (c, here) ↦ elim (v.named n c here) [
      | inl p ↦ ground (arith, here, p, v.idle)
      | inr (p, q) ↦ ground (arith, here, p, q)
    ]
  ]
