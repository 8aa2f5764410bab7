-- ===== src/Signal/Refine.antt =====
-- include/yash.hpp: a signal implements the list of the slots that are connected to it, over any
-- calls of connect and disconnect outside of an invocation.
use dbuscc.Signal.Shows.{calls-Shows, new-Shows, Shows-connected}
use dbuscc.Signal.View.{lists-view, length-view, deliver-view}
use dbuscc.Base.{
  abort, ℕ, ◌≡◌, true, none, List, contains, length, Outcome, done, ◌>>=◌, ap, ◌∙◌, sym, is_some,
}
use dbuscc.Signal.{Signal, slots, connect, emit}
use dbuscc.Signal.Invariant.{connect-none}
use dbuscc.Signal.Listing.{
  Call, lists, list_calls, Session, new_session, is_connected, no_calls, make_calls, fold_slots,
}
use dbuscc.Signal.Emission.{emit_in_order}

module _ {Slot W : Type 0} where
  -- A signal implements the list of its connected slots. A client makes any calls of connect with
  -- a function, and of disconnect on the connections that these gave, on a new signal, outside of
  -- an invocation. No call fails, and there are as many connections as calls of connect; slots()
  -- is the length of the list; the n-th connection is connected exactly when the list has the
  -- number n; an invocation whose slots leave the signal alone calls the slots of the list once
  -- each, oldest first, until one fails, and ends with that or with the effects of all; and a call
  -- of connect with an empty function fails its assertion.
  pub refines_listing :
      (run : Slot → Signal Slot × W → Outcome (Signal Slot × W)) (act : Slot → W → Outcome W)
      → ((f : Slot) (s : Signal Slot) (w : W) → run f (s, w) ≡ (act f w >>= λ w'. done (s, w')))
      → (cs : List (Call Slot)) (w : W)
      → (t : Session Slot) × (make_calls cs new_session ≡ done t)
        × (length t.conns ≡ (list_calls cs no_calls).calls)
        × (slots t.signal ≡ length (list_calls cs no_calls).entries)
        × ((n : ℕ) → is_connected n t ≡ lists n (list_calls cs no_calls).entries)
        × (emit run (t.signal, w)
            ≡ (fold_slots act (list_calls cs no_calls).entries w >>= λ w'. done (t.signal, w')))
        × (connect none t.signal ≡ abort)
  unfolding slots
  refines_listing run act passive cs w =
      let (t, p, v) = calls-Shows cs new_session no_calls new-Shows in
      let s = t.signal in
      let filled : (b : ℕ) → contains b s.cb ≡ true → is_some (s.callback b).fn ≡ true =
        λ b h. v.valid.filled b ∙ h in
      (
        t,
        p,
        v.count ∙ v.calls,
        length-view s.callback s.cb filled ∙ ap (λ (l : List (ℕ × Slot)). length l) v.entries,
        λ n.
            Shows-connected n t (list_calls cs no_calls) v
            ∙ (sym (lists-view s.callback n s.cb filled)
                ∙ ap (λ (l : List (ℕ × Slot)). lists n l) v.entries),
        emit_in_order run act passive s w v.valid
            ∙ ap (λ (m : Outcome W). m >>= λ w'. done (s, w'))
                (deliver-view act s s.cb w
                  ∙ ap (λ (l : List (ℕ × Slot)). fold_slots act l w) v.entries),
        connect-none s,
      )
