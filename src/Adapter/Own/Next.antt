-- ===== src/Adapter/Own/Next.antt =====
-- src/tscb-adapter.cc: no call of libdbus or of the reactor takes a context away.
use dbuscc.Base.{ℕ, ◌+◌, ◌≤◌, ◌≡◌, refl, List, [], ◌∷◌, done, >>=-eq-done, sym, ap, ◌∙◌, arith}
use dbuscc.Watch.{WatchApi, State, WatchEvent, on_change, on_remove, add_ref, release, handle}
use dbuscc.Watch.Values.{unref-release}
use dbuscc.Watch.Frame.{toggled-parts, removed-parts, handle-world}
use dbuscc.Adapter.{
  IoEvents, Adapter, on_watch_change, on_watch_remove, on_io_ready, call_slots, fire, run_posted,
}
use dbuscc.Watch.Frame.{add_ref-parts, release-parts}
use dbuscc.Adapter.Sync.Change.{on_watch_change-IsChanged}
use dbuscc.Adapter.Sync.Remove.{on_watch_remove-cleared}
use dbuscc.Adapter.Sync.Add.{add_watch-parts}
use dbuscc.Adapter.Own.Step.{Call, changes, adds, toggles, removes, frees, runs, is_ready}

module _ (api : WatchApi) where
  call_slots-next :
      (ev : WatchEvent) (cs : List ℕ) (s s' : State api Adapter)
      → call_slots api ev cs s ≡ done s'
      → s'.env.next ≡ s.env.next
  unfolding call_slots
  call_slots-next on_change [] s s' e = cc (e)
  call_slots-next on_remove [] s s' e = cc (e)
  call_slots-next on_change (c ∷ cs) s s' e =
      let (s1, p, q) = >>=-eq-done (on_watch_change api c s) _ e in
      let (a, conn, conn', h, same, ch) = on_watch_change-IsChanged api c s s1 p in
      call_slots-next on_change cs s1 s' q ∙ ap (λ (x : State api Adapter). x.env.next) (sym same)
  call_slots-next on_remove (c ∷ cs) s s' e =
      let (s1, p, q) = >>=-eq-done (on_watch_remove api c s) _ e in
      let (h, same, k) = on_watch_remove-cleared api c s s1 p in
      call_slots-next on_remove cs s1 s' q ∙ ap (λ (x : State api Adapter). x.env.next) (sym same)

  fire-next :
      (ev : WatchEvent) (a : ℕ) (s s' : State api Adapter)
      → fire api a ev s ≡ done s'
      → s'.env.next ≡ s.env.next
  unfolding fire
  fire-next ev a s s' e = call_slots-next ev (s.env.slots_of a) s s' e

  add_ref-next :
      (a : ℕ) (s s' : State api Adapter) → add_ref api a s ≡ done s' → s'.env.next ≡ s.env.next
  add_ref-next a s s' e =
      let (h, p, same) = add_ref-parts api a s s' e in
      ap (λ (x : State api Adapter). x.env.next) (sym same)

  release-next :
      (a : ℕ) (s s' : State api Adapter) → release api a s ≡ done s' → s'.env.next ≡ s.env.next
  release-next a s s' e =
      let (h, p, same) = release-parts api a s s' e in
      ap (λ (x : State api Adapter). x.env.next) (sym same)

  pub run_posted-next :
      (s s' : State api Adapter) → run_posted api s ≡ done s' → s'.env.next ≡ s.env.next
  unfolding run_posted
  run_posted-next s s' e = go s.env.posted refl
    where
      go : (xs : List ℕ) → s.env.posted ≡ xs → s'.env.next ≡ s.env.next
      go [] p = let same : s ≡ s' = ground (arith, p, e) in cc (same)
      go (c ∷ cs) p =
          let t : State api Adapter = record s { env = record (s.env) { posted = cs } } in
          let (a, conn, conn', h, same, ch) =
            on_watch_change-IsChanged api c t s' (ground (arith, p, e)) in
          ap (λ (x : State api Adapter). x.env.next) (sym same)

  is_ready-next :
      (a : ℕ) (e : IoEvents) (s s' : State api Adapter)
      → on_io_ready api a e s ≡ done s'
      → s'.env.next ≡ s.env.next
  unfolding on_io_ready
  is_ready-next a e s s' p =
      let ((ok, s1), p1, q1) = >>=-eq-done (handle api a _ s) _ p in
      let only : record s { world = s1.world } ≡ s1 = handle-world api a _ s ok s1 p1 in
      let last : s1 ≡ s' = cc (q1) in ap (λ (x : State api Adapter). x.env.next) (sym (only ∙ last))

  pub Call-next :
      {others : ℕ → ℕ} {s : State api Adapter} {others' : ℕ → ℕ} {s' : State api Adapter}
      → Call api others s others' s'
      → s.env.next ≤ s'.env.next
  Call-next (changes w) = omega arith
  Call-next {s = s} {s' = s'} (adds r e) =
      let (h, same, links) = add_watch-parts api r s s' e in
      let n : s'.env.next ≡ s.env.next + 1 =
        ap (λ (x : State api Adapter). x.env.next) (sym same) in
      omega (arith, n)
  Call-next {s = s} {s' = s'} (toggles r e) =
      let (a, s1, s2, g, p1, p2, p3) = toggled-parts api (fire api) r s s' e in
      omega (arith, add_ref-next a s s1 p1, fire-next on_change a s1 s2 p2, release-next a s2 s' p3)
  Call-next {s = s} {s' = s'} (removes r e) =
      let (a, c, s1, s2, g, p1, here, p2, p3) = removed-parts api (fire api) r s s' e in
      omega (arith, add_ref-next a s s1 p1, fire-next on_remove a _ s2 p2, release-next a s2 s' p3)
  Call-next {s = s} {s' = s'} (frees a same e) =
      omega (arith, release-next a s s' (sym (unref-release api a s) ∙ e))
  Call-next {s = s} {s' = s'} (runs e) = omega (arith, run_posted-next s s' e)
  Call-next {s = s} {s' = s'} (is_ready a ev e) = omega (arith, is_ready-next a ev s s' e)
