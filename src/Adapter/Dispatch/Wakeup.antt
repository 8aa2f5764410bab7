-- ===== src/Adapter/Dispatch/Wakeup.antt =====
-- src/tscb-adapter.cc: a call of do_dispatch is posted as long as libdbus has something to
-- dispatch.
use dbuscc.Base.{ℕ, suc, ◌<◌, ◌≡◌, ◌≢◌, List, done, refl, arith, >>=-eq-done, ◌∙◌, subst, ap}
use dbuscc.Connection.{
  ConnectionApi, DispatchStatus, complete, data_remains, need_memory, other, DispatchState,
  dispatch_complete, dispatch_data_remains, dispatch_need_memory, dispatch_state_of, State,
  dispatch,
}
use dbuscc.Adapter.Dispatch.{
  Dispatching, on_dispatch_state, dispatch_state_changed, all_changes, do_dispatch, start,
}

module _ (api : ConnectionApi) (reported : api.World → ℕ → List DispatchStatus) where
  abbrev pub status : Dispatching api → DispatchStatus
  status d = api.get_dispatch_status d.connection.world (d.connection.conn.raw)

  -- The reactor has work whenever libdbus has.
  abbrev pub IsAwake : Dispatching api → Type 0
  IsAwake d = status d ≢ complete → 0 < d.posted

  -- A function that was posted runs; or libdbus changes on its own, from the status it has to the
  -- same one, or to another one that it reports.
  pub data Step (d d' : Dispatching api) : Type 0 where
    runs :
        (p : ℕ)
        → d.posted ≡ suc p
        → do_dispatch api reported (record d { posted = p }) ≡ done d'
        → Step d d'
    stays :
        (w : api.World)
        → d' ≡ record d { connection = record (d.connection) { world = w } }
        → status d' ≡ status d
        → Step d d'
    changes :
        (w : api.World) (x : DispatchStatus)
        → api.get_dispatch_status w (d.connection.conn.raw) ≡ x
        → dispatch_state_changed api reported x
            (record d { connection = record (d.connection) { world = w } })
          ≡ done d'
        → Step d d'

  pub data Reach : Dispatching api → Dispatching api → Type 0 where
    here : {d : Dispatching api} → Reach d d
    next : {d d' d'' : Dispatching api} → Step d d' → Reach d' d'' → Reach d d''

  complete_of : (x : DispatchStatus) → dispatch_state_of x ≡ done dispatch_complete → x ≡ complete
  unfolding dispatch_state_of
  complete_of data_remains h = cc
  complete_of complete h = refl
  complete_of need_memory h = cc
  complete_of (other n) h = cc

  on_dispatch_state-IsAwake :
      (x : DispatchStatus) (state : DispatchState) (e : Dispatching api)
      → dispatch_state_of x ≡ done state
      → status e ≡ x
      → IsAwake (on_dispatch_state api reported state e)
  unfolding on_dispatch_state
  on_dispatch_state-IsAwake x dispatch_complete e h i =
      λ busy. elim (busy (i ∙ complete_of x h)) [ ]
  on_dispatch_state-IsAwake x dispatch_data_remains e h i = λ _. omega arith
  on_dispatch_state-IsAwake x dispatch_need_memory e h i = λ _. omega arith

  changed-IsAwake :
      (x : DispatchStatus) (e d : Dispatching api)
      → dispatch_state_changed api reported x e ≡ done d
      → status e ≡ x
      → IsAwake d
  unfolding dispatch_state_changed
  changed-IsAwake x e d h i =
      let (state, p, q) = >>=-eq-done (dispatch_state_of x) _ h in
      let same : on_dispatch_state api reported state e ≡ d = cc in
      subst (λ (y : Dispatching api). IsAwake y) same (on_dispatch_state-IsAwake x state e p i)

  module _
      (status-dispatch : (w : api.World) (c : ℕ)
        → api.get_dispatch_status (api.dispatch w c).1 c ≡ (api.dispatch w c).0) where
    do_dispatch-IsAwake : (e d : Dispatching api) → do_dispatch api reported e ≡ done d → IsAwake d
    unfolding do_dispatch dispatch
    do_dispatch-IsAwake e d h =
        let ((state, s), p, q) = >>=-eq-done (dispatch api e.connection) _ h in
        let (st, p1, q1) =
          >>=-eq-done
            (dispatch_state_of (api.dispatch e.connection.world (e.connection.conn.raw)).0) _ p in
        let (d1, p2, q2) =
          >>=-eq-done
            (all_changes api reported (reported e.connection.world (e.connection.conn.raw)) e) _
            q in
        let s2 : State api = record (e.connection) {
          world = (api.dispatch e.connection.world (e.connection.conn.raw)).1;
        } in
        let same_s : s2 ≡ s = cc in
        let same_state : st ≡ state = cc in
        let same_d : on_dispatch_state api reported st (record d1 { connection = s2 }) ≡ d =
          rw same_state (rw same_s cc) in
        subst (λ (y : Dispatching api). IsAwake y) same_d
          (on_dispatch_state-IsAwake _ st (record d1 { connection = s2 }) p1
            (status-dispatch e.connection.world (e.connection.conn.raw)))

    Step-IsAwake : {d d' : Dispatching api} → IsAwake d → Step d d' → IsAwake d'
    Step-IsAwake {d} {d'} v (runs p e h) = do_dispatch-IsAwake _ d' h
    Step-IsAwake v (stays w e same) = λ busy.
        let more = v (λ h. busy (same ∙ h)) in
        ground (arith, ap (λ (x : Dispatching api). x.posted) e, more)
    Step-IsAwake {d} {d'} v (changes w x e h) = changed-IsAwake x _ d' h e

    Reach-IsAwake : {d d' : Dispatching api} → Reach d d' → IsAwake d → IsAwake d'
    Reach-IsAwake here v = v
    Reach-IsAwake (next s r) v = Reach-IsAwake r (Step-IsAwake v s)

    -- From the end of the constructor of the adapter on, the reactor has a call of do_dispatch to
    -- run unless libdbus has nothing to dispatch: no wakeup is lost, in whatever order libdbus
    -- changes its status and the reactor runs what is posted. libdbus is taken to report each
    -- change of its status, and to answer a dispatch with the status that it then has.
    pub start_wakes :
        (s : State api) (d d' : Dispatching api)
        → start api reported s ≡ done d
        → Reach d d'
        → status d' ≢ complete
        → 0 < d'.posted
    unfolding start
    start_wakes s d d' h r busy = Reach-IsAwake r (do_dispatch-IsAwake _ d h) busy
