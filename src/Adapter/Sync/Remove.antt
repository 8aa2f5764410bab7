-- ===== src/Adapter/Sync/Remove.antt =====
-- src/tscb-adapter.cc: on_watch_remove clears one context, whose watch is removed, and leaves
-- the others alone.
use mathlib.Core.Path.{fun_ext}
use dbuscc.Base.{
  ℕ, ◌≡◌, inl, inr, ◌==◌, true, Option, none, some, List, contains, update, done, deref,
  >>=-eq-done, arith, Bool-cases, sym, ap, ◌∙◌, subst,
}
use dbuscc.Pointer.{Store}
use dbuscc.Watch.{WatchApi, Watch, State}
use dbuscc.Watch.Frame.{Keeps, Keeps-trans, release-Keeps}
use dbuscc.Adapter.{IoConnection, IoCtx, Adapter, drop_conn, drop_watch, on_watch_remove}
use dbuscc.Adapter.Removal.{cleared_ctx}
use dbuscc.Adapter.Sync.{ctx_of, Linked, IsSynced, put}
use dbuscc.Adapter.Sync.Kept.{kept, other-IsTracked}

update-update :
    {A : Type 0} (f : ℕ → A) (a : ℕ) (x y : A) → update (update f a x) a y ≡ update f a y
update-update f a x y = fun_ext λ b. ground arith

module _ (api : WatchApi) where
  open api use {Raw}

  drop_conn-Keeps :
      (conn : Option IoConnection) (s s' : State api Adapter)
      → drop_conn api conn s ≡ done s'
      → (h : Store (Watch Raw)) × (record s { heap = h } ≡ s') × Keeps s.heap h
  unfolding drop_conn
  drop_conn-Keeps none s s' e = (s.heap, cc (e), λ b r n p. (n, p))
  drop_conn-Keeps (some io) s s' e = release-Keeps api io.target s s' e

  drop_watch-Keeps :
      (watch : Option ℕ) (s s' : State api Adapter)
      → drop_watch api watch s ≡ done s'
      → (h : Store (Watch Raw)) × (record s { heap = h } ≡ s') × Keeps s.heap h
  unfolding drop_watch
  drop_watch-Keeps none s s' e = (s.heap, cc (e), λ b r n p. (n, p))
  drop_watch-Keeps (some a) s s' e = release-Keeps api a s s' e

  pub on_watch_remove-cleared :
      (c : ℕ) (s s' : State api Adapter)
      → on_watch_remove api c s ≡ done s'
      → (h : Store (Watch Raw)) × (put api s h c cleared_ctx ≡ s') × Keeps s.heap h
  unfolding on_watch_remove
  on_watch_remove-cleared c s s' e =
      let (ctx, p, q) = >>=-eq-done (deref (s.env.contexts c)) _ e in
      let (s1, p1, q1) = >>=-eq-done (drop_conn api ctx.conn s) _ q in
      let (h1, same1, k1) = drop_conn-Keeps ctx.conn s s1 p1 in
      let idle : IoCtx = record ctx { conn = none } in
      let s2 : State api Adapter = put api s1 s1.heap c idle in
      let (s3, p3, q3) = >>=-eq-done (drop_watch api ctx.watch s2) _ q1 in
      let (h3, same3, k3) = drop_watch-Keeps ctx.watch s2 s3 p3 in
      (
        h3,
        ap (λ (f : ℕ → Option IoCtx). record s { heap = h3; env = record (s.env) { contexts = f } })
              (sym (update-update s.env.contexts c (some idle) (some cleared_ctx)))
            ∙ (ap (λ (x : State api Adapter). put api (put api x h3 c idle) h3 c cleared_ctx) same1
                ∙ (ap (λ (x : State api Adapter). put api x x.heap c cleared_ctx) same3 ∙ cc (q3))),
        Keeps-trans s.heap h1 h3 k1
            (subst (λ (x : State api Adapter). Keeps x.heap h3) (sym same1) k3),
      )

  module _ (stale : List ℕ) (c a : ℕ) (h : Store (Watch Raw)) (s : State api Adapter)
      (v : IsSynced api stale s) (slot : contains c (s.env.slots_of a) ≡ true)
      (unlinked : (r : Raw) → ¬ Linked api s.heap a r) (k : Keeps s.heap h) where
    pub cleared-IsSynced : IsSynced api stale (put api s h c cleared_ctx)
    cleared-IsSynced = record {
      tracked = λ c2 a2 k2 e. elim (Bool-cases (c2 == c)) [
        | inl p ↦ absurd (ground (arith, p, e))
        | inr p ↦
            other-IsTracked api stale stale c c2 a2 k2 cleared_ctx s h k (λ q. q)
              (v.tracked c2 a2 k2 (ground (arith, p, e)))
      ];
      data_is = λ b r l. v.data_is b r (kept api s.heap h k b r l);
      fresh = λ b r l. v.fresh b r (kept api s.heap h k b r l);
      served = λ b r l.
          let l0 = kept api s.heap h k b r l in
          let (c2, k2, e) = v.served b r l0 in
          elim (Bool-cases (c2 == c)) [
            | inl p ↦ elim (v.owned c a slot).1 [
              | inl (k3, e3) ↦
                  let same : ctx_of b k2 ≡ ctx_of a k3 = ground (arith, p, e, e3) in
                  let same_a : b ≡ a = cc (same) in
                  absurd (unlinked r (subst (λ (x : ℕ). Linked api s.heap x r) same_a l0))
              | inr e3 ↦ absurd (ground (arith, p, e, e3))
            ]
            | inr p ↦ (c2, k2, ground (arith, p, e))
          ];
      owned = λ c2 a2 q.
          let (lt, ctx) = v.owned c2 a2 q in
          (
            lt,
            elim (Bool-cases (c2 == c)) [
              | inl p ↦ inr (ground (arith, p))
              | inr p ↦ elim ctx [
                | inl (k2, e) ↦ inl (k2, ground (arith, p, e))
                | inr e ↦ inr (ground (arith, p, e))
              ]
            ],
          );
    }
