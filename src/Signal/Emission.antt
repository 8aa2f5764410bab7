-- ===== src/Signal/Emission.antt =====
-- include/yash.hpp: which slots an invocation of a signal calls, and in which order.
use dbuscc.Base.{
  sym, >>=-assoc, >>=-ext, Outcome-cases, ℕ, ◌<◌, ◌≤◌, ◌≡◌, refl, true, none, some, List, [], ◌∷◌,
  arith, contains, AllBelow, Outcome, done, abort, fault, raise, if◌then◌else◌, Bool-cases,
  Option-cases, inl, inr, ◌⊎◌, ◌>>=◌, ◌∙◌, ap, subst, >>=-eq-done,
}
use dbuscc.Signal.{Signal, erase_first, disconnect, alive, call_one, call_all, emit, lock, unlock}
use dbuscc.Signal.Invariant.{IsSignal, contains-erase_first}
use dbuscc.Signal.Disconnect.{at, dropped, disconnect_listed}

module _ {Slot W : Type 0} where
  -- The effect of calling the slots of some callbacks one after the other, up to one that fails.
  unfoldable pub deliver : (Slot → W → Outcome W) → Signal Slot → List ℕ → W → Outcome W
  deliver act s [] w = done w
  deliver act s (a ∷ tmp) w =
      (elim (s.callback a).fn [ none ↦ done w | some f ↦ act f w ]) >>= deliver act s tmp

  module _ (run : Slot → Signal Slot × W → Outcome (Signal Slot × W)) (act : Slot → W → Outcome W)
      (passive : (f : Slot) (s : Signal Slot) (w : W)
        → run f (s, w) ≡ (act f w >>= λ w'. done (s, w'))) where
    call_one-passive :
        (a : ℕ) (s : Signal Slot) (w : W)
        → IsSignal s
        → contains a s.cb ≡ true
        → call_one run a (s, w)
          ≡ ((elim (s.callback a).fn [ none ↦ done w | some f ↦ act f w ]) >>= λ w'. done (s, w'))
    unfolding call_one lock unlock erase_first
    call_one-passive a s w v h = elim (Option-cases (s.callback a).fn) [
      | inl e ↦ ground (arith, v.filled a)
      | inr (f, e) ↦ elim (Outcome-cases (act f w)) [
        | inl (w', p) ↦ ground (arith, p, passive f (lock a s) w)
        | inr (inl p) ↦ ground (arith, p, passive f (lock a s) w)
        | inr (inr (inl p)) ↦ ground (arith, p, passive f (lock a s) w)
        | inr (inr (inr p)) ↦ ground (arith, p, passive f (lock a s) w)
      ]
    ]

    call_all-passive :
        (tmp : List ℕ) (s : Signal Slot) (w : W)
        → IsSignal s
        → ((a : ℕ) → contains a tmp ≡ true → contains a s.cb ≡ true)
        → call_all run tmp (s, w) ≡ (deliver act s tmp w >>= λ w'. done (s, w'))
    unfolding call_all deliver
    call_all-passive [] s w v h = refl
    call_all-passive (a ∷ tmp) s w v h =
        ap (λ m. m >>= call_all run tmp) (call_one-passive a s w v (h a (ground arith)))
        ∙ (>>=-assoc (elim (s.callback a).fn [ none ↦ done w | some f ↦ act f w ])
              (λ w'. done (s, w')) (call_all run tmp)
            ∙ (>>=-ext (elim (s.callback a).fn [ none ↦ done w | some f ↦ act f w ])
                  (λ w'. call_all-passive tmp s w' v λ b i. h b (ground (arith, i)))
                ∙ sym (
                    >>=-assoc (elim (s.callback a).fn [ none ↦ done w | some f ↦ act f w ])
                      (deliver act s tmp) (λ w'. done (s, w')))))

    -- Slots that leave the signal alone are called once each, in the order in which they were
    -- connected, until one fails; with that, or with the effects of all, the invocation ends.
    pub emit_in_order :
        (s : Signal Slot) (w : W)
        → IsSignal s
        → emit run (s, w) ≡ (deliver act s s.cb w >>= λ w'. done (s, w'))
    unfolding emit
    emit_in_order s w v = call_all-passive s.cb s w v λ a h. h

-- What code outside of yash can do to the callbacks that exist: clear their functions.
pub record Grows {Slot : Type 0} (s s' : Signal Slot) : Type 0 where
  pub next : s.next ≤ s'.next
  pub kept :
      (a : ℕ) → a < s.next → ((s'.callback a).fn ≡ (s.callback a).fn) ⊎ ((s'.callback a).fn ≡ none)

Grows-trans : {Slot : Type 0} {s t u : Signal Slot} → Grows s t → Grows t u → Grows s u
Grows-trans {s} g h = record {
  next = omega arith;
  kept = λ a l. ground (arith, g.kept a l, h.kept a);
}

module _ {Slot W : Type 0} where
  -- The slots of the listed callbacks on which two behaviours of slots agree.
  abbrev Agree :
      (run run' : Slot → Signal Slot × W → Outcome (Signal Slot × W))
      → Signal Slot
      → List ℕ
      → Type 0
  Agree run run' s tmp =
      (a : ℕ) (f : Slot) (t : Signal Slot × W)
      → contains a tmp ≡ true
      → (s.callback a).fn ≡ some f
      → run f t ≡ run' f t

  module _ (run run' : Slot → Signal Slot × W → Outcome (Signal Slot × W))
      (tame : (f : Slot) (s : Signal Slot) (w : W) (t : Signal Slot × W)
        → run f (s, w) ≡ done t
        → Grows s t.0) where
    call_one_live :
        (a : ℕ) (s : Signal Slot) (w : W) (f : Slot) (t : Signal Slot × W)
        → (run f (lock a s, w) >>= λ (s', w'). done (unlock a s', w')) ≡ done t
        → Grows s t.0
    unfolding lock unlock
    call_one_live a s w f t e =
        let (t', e1, e2) = >>=-eq-done (run f (lock a s, w)) _ e in
        let g = tame f (lock a s) w t' e1 in
        let same : unlock a t'.0 ≡ t.0 = cc (e2) in
        subst (Grows s) same (record { next = g.next; kept = g.kept })

    call_one-Grows :
        (a : ℕ) (s : Signal Slot) (w : W) (t : Signal Slot × W)
        → call_one run a (s, w) ≡ done t
        → Grows s t.0
    unfolding call_one lock unlock
    call_one-Grows a s w t e = elim (Bool-cases (alive a s)) [
      | inl live ↦ elim (Option-cases (s.callback a).fn) [
        | inl n ↦ ground arith
        | inr (f, n) ↦ call_one_live a s w f t (ground arith)
      ]
      | inr dead ↦
          let same : s ≡ t.0 = ground arith in
          subst (Grows s) same (record { next = omega arith; kept = λ b h. inl refl })
    ]

    call_one-agree :
        (a : ℕ) (s0 s : Signal Slot) (w : W)
        → Grows s0 s
        → a < s0.next
        → ((f : Slot) (t : Signal Slot × W) → (s0.callback a).fn ≡ some f → run f t ≡ run' f t)
        → call_one run a (s, w) ≡ call_one run' a (s, w)
    unfolding call_one lock unlock
    call_one-agree a s0 s w g h same = elim (Option-cases (s.callback a).fn) [
      | inl e ↦ ground arith
      | inr (f, e) ↦ ground (arith, g.kept a h, same f (lock a s, w))
    ]

    call_all-Agree :
        (tmp : List ℕ) (s0 s : Signal Slot) (w : W)
        → AllBelow s0.next tmp
        → Agree run run' s0 tmp
        → Grows s0 s
        → call_all run tmp (s, w) ≡ call_all run' tmp (s, w)
    unfolding call_all
    call_all-Agree [] s0 s w b same g = refl
    call_all-Agree (a ∷ tmp) s0 s w b same g =
        rw (← call_one-agree a s0 s w g b.0 λ f t. same a f t (ground arith)) (
          go (call_one run a (s, w)) refl
            λ s' w' g'. call_all-Agree tmp s0 s' w' b.1 (λ c f t i. same c f t (ground arith)) g')
      where
        go :
            (r : Outcome (Signal Slot × W))
            → call_one run a (s, w) ≡ r
            → ((s' : Signal Slot) (w' : W)
                → Grows s0 s'
                → call_all run tmp (s', w') ≡ call_all run' tmp (s', w'))
            → (r >>= call_all run tmp) ≡ (r >>= call_all run' tmp)
        go (done (s', w')) e rest = rest s' w' (Grows-trans g (call_one-Grows a s w (s', w') e))
        go raise e rest = refl
        go abort e rest = refl
        go fault e rest = refl

    -- Two behaviours that agree on the slots connected when the signal is invoked give the same
    -- invocation, whatever they do at other slots: a slot that is connected while the invocation
    -- runs is not called by it. The slots may clear functions of callbacks but not replace them.
    pub emit_ignores_late :
        (s : Signal Slot) (w : W)
        → IsSignal s
        → Agree run run' s s.cb
        → emit run (s, w) ≡ emit run' (s, w)
    unfolding emit
    emit_ignores_late s w v same =
        call_all-Agree s.cb s s w v.below same
          (record { next = omega arith; kept = λ a h. inl refl })

  -- A slot that disconnects the connection to the callback `a`.
  unfoldable pub disconnecting : ℕ → Signal Slot × W → Outcome (Signal Slot × W)
  disconnecting a (s, w) = do (c, s') ← disconnect (at a) s; done (s', w)

  disconnecting_locked :
      (s : Signal Slot) (w : W) (b a : ℕ)
      → IsSignal s
      → contains a s.cb ≡ true
      → disconnecting a (lock b s, w) ≡ done (lock b (dropped a s), w)
  unfolding disconnecting lock dropped
  disconnecting_locked s w b a v h =
      let v' : IsSignal (lock b s) = record {
        distinct = v.distinct;
        below = v.below;
        owned = v.owned;
        filled = v.filled;
      } in
      rw (disconnect_listed a (lock b s) v' h)

  call_one_first :
      (run : Slot → Signal Slot × W → Outcome (Signal Slot × W)) (s : Signal Slot) (w : W) (b a : ℕ)
      (f : Slot)
      → IsSignal s
      → contains b s.cb ≡ true
      → contains a s.cb ≡ true
      → (s.callback b).fn ≡ some f
      → ((t : Signal Slot × W) → run f t ≡ disconnecting a t)
      → call_one run b (s, w) ≡ done (dropped a s, w)
  unfolding call_one lock unlock erase_first
  call_one_first run s w b a f v hb ha n r =
      ground (arith, r (lock b s, w), disconnecting_locked s w b a v ha)

  call_one-dropped :
      (run : Slot → Signal Slot × W → Outcome (Signal Slot × W)) (s : Signal Slot) (w : W) (a : ℕ)
      → IsSignal s
      → call_one run a (dropped a s, w)
        ≡ (if contains a s.locked then raise else done (dropped a s, w))
  unfolding call_one dropped
  call_one-dropped run s w a v = ground (arith, contains-erase_first a a s.cb v.distinct)

  -- When the first slot of an invocation disconnects the second callback, that one is skipped,
  -- unless an outer invocation is calling it: then its cleared function is called and throws.
  pub disconnect_during_emission :
      (run : Slot → Signal Slot × W → Outcome (Signal Slot × W)) (s : Signal Slot) (w : W) (b a : ℕ)
      (rest : List ℕ) (f : Slot)
      → IsSignal s
      → s.cb ≡ b ∷ a ∷ rest
      → (s.callback b).fn ≡ some f
      → ((t : Signal Slot × W) → run f t ≡ disconnecting a t)
      → (s' : Signal Slot) × (disconnecting a (s, w) ≡ done (s', w))
        × (emit run (s, w) ≡ (if contains a s.locked then raise else call_all run rest (s', w)))
  unfolding emit call_all call_one disconnecting
  disconnect_during_emission run s w b a rest f v e n r = (
    dropped a s,
    rw (disconnect_listed a s v (ground arith)),
    ap (λ (l : List ℕ). call_all run l (s, w)) e
        ∙ rw (call_one_first run s w b a f v (ground arith) (ground arith) n r)
            (rw (call_one-dropped run s w a v) (ground arith)),
  )
