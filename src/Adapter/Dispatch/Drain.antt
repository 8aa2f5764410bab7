-- ===== src/Adapter/Dispatch/Drain.antt =====
-- src/tscb-adapter.cc: the reactor with nothing but the calls of do_dispatch, until none is posted.
use dbuscc.Base.{
  ℕ, zero, suc, ◌+◌, ◌-◌, ◌<◌, ◌≤◌, ◌≡◌, ◌⊎◌, inl, inr, List, [], ◌∷◌, done, refl, arith, ◌==◌,
  if◌then◌else◌, Bool-cases,
}
use dbuscc.Connection.{
  ConnectionApi, DispatchStatus, complete, data_remains, dispatch_state_of, State, dispatch,
}
use dbuscc.Adapter.Dispatch.{
  on_dispatch_state, dispatch_state_changed, all_changes, do_dispatch, run,
}

module _ (api : ConnectionApi) (reported : api.World → ℕ → List DispatchStatus)
    (queued : api.World → ℕ → ℕ)
    (takes_one : (w : api.World) (c : ℕ) → queued (api.dispatch w c).1 c ≡ queued w c - 1)
    (answers : (w : api.World) (c : ℕ)
      → (api.dispatch w c).0 ≡ (if queued w c - 1 == 0 then complete else data_remains))
    (reports : (w : api.World) (c : ℕ) → (reported w c ≡ []) ⊎ (reported w c ≡ complete ∷ [])) where
  abbrev left : State api → ℕ
  left s = queued s.world (s.conn.raw)

  abbrev dispatched : State api → State api
  dispatched s = record s { world = (api.dispatch s.world (s.conn.raw)).1 }

  changes_nothing :
      (s : State api) (p : ℕ)
      → all_changes api reported
          (reported s.world (s.conn.raw))
          (record { connection = s; posted = p })
        ≡ done (record { connection = s; posted = p })
  unfolding all_changes dispatch_state_changed on_dispatch_state dispatch_state_of
  changes_nothing s p = elim (reports s.world (s.conn.raw)) [
    | inl e ↦ rw e refl
    | inr e ↦ rw e refl
  ]

  do_dispatch-takes :
      (s : State api) (p : ℕ)
      → do_dispatch api reported (record { connection = s; posted = p })
        ≡ done (record { connection = dispatched s; posted = if left s - 1 == 0 then p else p + 1 })
  unfolding do_dispatch dispatch on_dispatch_state dispatch_state_of
  do_dispatch-takes s p = elim (Bool-cases (left s - 1 == 0)) [
    | inl e ↦ rw (answers s.world (s.conn.raw)) (rw e (rw (changes_nothing s p) refl))
    | inr e ↦ rw (answers s.world (s.conn.raw)) (rw e (rw (changes_nothing s p) refl))
  ]

  -- If each dispatch takes one message off, answers data_remains exactly while messages are
  -- left, and reports no status meanwhile but that it is complete, at most once, then the
  -- reactor comes to an end: with work posted when there are messages, as many runs as there are
  -- messages and posted calls together leave no message and nothing posted.
  pub run_drains :
      (k : ℕ) (s : State api) (p : ℕ)
      → left s + p ≤ k
      → (0 < left s → 0 < p)
      → (s' : State api) × (run api reported k (record { connection = s; posted = p })
          ≡ done (record { connection = s'; posted = 0 }))
        × (left s' ≡ 0)
  unfolding run
  run_drains zero s zero b v = (s, refl, omega arith)
  run_drains zero s (suc p) b v = let no : ⊥ = omega arith in elim no [ ]
  run_drains (suc k) s zero b v = (s, refl, ground (arith, v))
  run_drains (suc k) s (suc p) b v =
      let less : left (dispatched s) ≡ left s - 1 = takes_one s.world (s.conn.raw) in
      elim (Bool-cases (left s - 1 == 0)) [
        | inl e ↦
            let (s', q, z) =
              run_drains k (dispatched s) p (ground (arith, e, less)) (ground (arith, e, less)) in
            (s', rw (do_dispatch-takes s p) (rw e q), z)
        | inr e ↦
            let (s', q, z) =
              run_drains k (dispatched s) (p + 1) (ground (arith, e, less)) (λ _. omega arith) in
            (s', rw (do_dispatch-takes s p) (rw e q), z)
      ]
