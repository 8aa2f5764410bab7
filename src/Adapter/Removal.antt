-- ===== src/Adapter/Removal.antt =====
-- src/tscb-adapter.cc: a watch that libdbus removes before or after the reactor runs the
-- function that was posted when the watch was added.
use dbuscc.Base.{
  update-same, ℕ, ◌+◌, ◌-◌, ◌<◌, ◌≡◌, Option, none, some, [], ◌∷◌, update, done, ◌>>=◌, refl, arith,
  ap, ◌∙◌,
}
use dbuscc.Pointer.{int_mod}
use dbuscc.Watch.{WatchApi, Watch, State, on_remove, removed}
use dbuscc.Watch.Values.{release-live, removed-live}
use dbuscc.Watch.Removal.{counted, detached}
use dbuscc.Adapter.{IoConnection, IoCtx, Adapter, on_watch_remove, fire}

abbrev pub idle_ctx : ℕ → IoCtx
idle_ctx a = record { watch = some a; conn = none }

abbrev pub cleared_ctx : IoCtx
cleared_ctx = record { watch = none; conn = none }

module _ (api : WatchApi) where
  -- What is left of a context of a watch that was removed.
  pub record IsCleared (c a n : ℕ) (s s' : State api Adapter) : Type 0 where
    pub ctx : s'.env.contexts c ≡ some cleared_ctx
    pub count : s'.heap a ≡ counted n detached
    pub posted : s'.env.posted ≡ s.env.posted

  fire-one :
      (c a : ℕ) (s : State api Adapter)
      → s.env.slots_of a ≡ c ∷ []
      → fire api a on_remove s ≡ (on_watch_remove api c s >>= λ s'. done s')
  unfolding fire
  fire-one c a s e = rw e refl

  remove_idle :
      (c a n : ℕ) (s : State api Adapter)
      → s.env.contexts c ≡ some (idle_ctx a)
      → s.heap a ≡ counted n detached
      → 1 < n
      → n < int_mod
      → (s' : State api Adapter) × (on_watch_remove api c s ≡ done s') × IsCleared c a (n - 1) s s'
  unfolding on_watch_remove
  remove_idle c a n s has live m b =
      let s2 : State api Adapter = record s {
        env = record (s.env) { contexts = update s.env.contexts c (some (idle_ctx a)) };
      } in
      let s3 : State api Adapter = record s2 {
        heap = update s.heap a (counted (n - 1) detached);
      } in
      let s4 : State api Adapter = record s3 {
        env = record (s3.env) { contexts = update s3.env.contexts c (some cleared_ctx) };
      } in
      (
        s4,
        rw has (rw (release-live api a n s2 detached live m b) refl),
        record { ctx = update-same c s3.env.contexts; count = update-same a s.heap; posted = refl },
      )

  remove_watched :
      (c a n : ℕ) (io : IoConnection) (s : State api Adapter)
      → s.env.contexts c ≡ some (record { watch = some a; conn = some io })
      → io.target ≡ a
      → s.heap a ≡ counted n detached
      → 2 < n
      → n < int_mod
      → (s' : State api Adapter) × (on_watch_remove api c s ≡ done s') × IsCleared c a (n - 2) s s'
  unfolding on_watch_remove
  remove_watched c a n io s has on live m b =
      let s1 : State api Adapter = record s { heap = update s.heap a (counted (n - 1) detached) } in
      let s2 : State api Adapter = record s1 {
        env = record (s.env) { contexts = update s.env.contexts c (some (idle_ctx a)) };
      } in
      let s3 : State api Adapter = record s2 {
        heap = update s1.heap a (counted (n - 1 - 1) detached);
      } in
      let s4 : State api Adapter = record s3 {
        env = record (s3.env) { contexts = update s3.env.contexts c (some cleared_ctx) };
      } in
      (
        s4,
        rw has (
            rw on (
              rw (release-live api a n s detached live (omega arith) b) (
                rw
                  (release-live api a (n - 1) s2 detached (update-same a s.heap) (omega arith)
                    (omega arith))
                  refl))),
        record {
          ctx = update-same c s3.env.contexts;
          count =
              update-same a s1.heap
              ∙ ap (λ (k : ℕ). counted k (detached {Raw = api.Raw})) (omega arith);
          posted = refl;
        },
      )

  -- How many references a context and its connection to the reactor hold.
  abbrev pub held : Option IoConnection → ℕ
  held none = 1
  held (some io) = 2

  abbrev pub IsFor : ℕ → Option IoConnection → Type 0
  IsFor a none = Unit {0}
  IsFor a (some io) = io.target ≡ a

  remove_any :
      (c a n : ℕ) (conn : Option IoConnection) (s : State api Adapter)
      → s.env.contexts c ≡ some (record { watch = some a; conn = conn })
      → IsFor a conn
      → s.heap a ≡ counted n detached
      → held conn < n
      → n < int_mod
      → (s' : State api Adapter) × (on_watch_remove api c s ≡ done s')
        × IsCleared c a (n - held conn) s s'
  remove_any c a n none s has on live m b = remove_idle c a n s has live m b
  remove_any c a n (some io) s has on live m b = remove_watched c a n io s has on live m b

  -- When libdbus removes a watch whose one context has its watch_ptr, and a connection to the
  -- reactor or none, the context lets go of both: the reactor no longer watches the descriptor and
  -- the references that they held are given back. What was posted stays posted. The watch has
  -- another owner, and its count does not wrap.
  pub removed_clears :
      (r : api.Raw) (c a n : ℕ) (conn : Option IoConnection) (w : Watch api.Raw)
      (s : State api Adapter)
      → api.get_data s.world r ≡ some a
      → s.env.slots_of a ≡ c ∷ []
      → s.env.contexts c ≡ some (record { watch = some a; conn = conn })
      → IsFor a conn
      → s.heap a ≡ some (record { refcnt = n; self = w })
      → held conn < n
      → n + 1 < int_mod
      → (s' : State api Adapter) × (removed api (fire api) (some r) s ≡ done s')
        × IsCleared c a (n - held conn) s s'
  removed_clears r c a n conn w s g slots has on live m b =
      let s2 : State api Adapter = record s {
        heap = update (update s.heap a (counted (n + 1) w)) a (counted (n + 1) detached);
      } in
      let (s3, p3, clear) =
        remove_any c a (n + 1) conn s2 has on (update-same a (update s.heap a (counted (n + 1) w)))
          (omega arith) b in
      let k : ℕ = n + 1 - held conn in
      (
        record s3 { heap = update s3.heap a (counted (k - 1) detached) },
        rw (removed-live api a n s w live (fire api) r g b) (
            rw (fire-one c a s2 slots) (
              rw p3 (
                rw (release-live api a k s3 detached clear.count (omega arith) (omega arith))
                  refl))),
        record {
          ctx = clear.ctx;
          count =
              update-same a s3.heap
              ∙ ap (λ (k : ℕ). counted k (detached {Raw = api.Raw})) (omega arith);
          posted = clear.posted;
        },
      )
