-- ===== src/Connection/Calls.antt =====
-- src/connection.cc: calls, handlers, and the end of a connection.
use dbuscc.Base.{ℕ, ◌≡◌, refl, ◌∙◌, Bool, true, false, Option, none, some, done, abort, arith}
use dbuscc.Connection.{
  ConnectionApi, ConnectionKind, shared_connection, private_connection, State, close, destroy, call,
  install_handlers,
}

module _ (api : ConnectionApi) where
  -- Whether an answer of libdbus to a call with reply has a pending call.
  abbrev pub pending_of : Bool × Option ℕ × api.World → Option ℕ
  pending_of (false, p, w) = none
  pending_of (true, p, w) = p

  -- connection::call returns exactly when libdbus succeeds and gives a pending call. When it has
  -- no memory for the call, or when the connection is disconnected, which it reports by success
  -- with a null pointer, an assertion fails: the caller never gets a null pointer.
  pub call_returns_or_aborts :
      (m : ℕ) (s : State api)
      → let answer = api.send_with_reply s.world (s.conn.raw) m in
        call api (some m) s ≡ (elim (pending_of answer) [
          | none ↦ abort
          | some p ↦ done (p, record s { world = answer.2 })
        ])
  unfolding call
  call_returns_or_aborts m s = ground arith

  -- The state with the given flags and the members that the handlers leave alone.
  abbrev with_flags : (k : ConnectionKind) (r : ℕ) (w : api.World) (a b c : Bool) → State api
  with_flags k r w a b c = record {
    conn = record {
      kind = k;
      raw = r;
      watch_handler_installed = a;
      timeout_handler_installed = b;
      dispatch_handler_installed = c;
    };
    world = w;
  }

  pub AllInstalled : State api → Type 0
  AllInstalled t =
      (t.conn.watch_handler_installed ≡ true)
      × (t.conn.timeout_handler_installed ≡ true)
      × (t.conn.dispatch_handler_installed ≡ true)

  flags_installed :
      (k : ConnectionKind) (r : ℕ) (w : api.World) (a b c : Bool)
      → let t = install_handlers api (with_flags k r w a b c) in
        (install_handlers api t ≡ t) × (t.conn.raw ≡ r) × AllInstalled t
  unfolding install_handlers AllInstalled
  flags_installed k r w false false false = (refl, refl, (refl, refl, refl))
  flags_installed k r w false false true = (refl, refl, (refl, refl, refl))
  flags_installed k r w false true false = (refl, refl, (refl, refl, refl))
  flags_installed k r w false true true = (refl, refl, (refl, refl, refl))
  flags_installed k r w true false false = (refl, refl, (refl, refl, refl))
  flags_installed k r w true false true = (refl, refl, (refl, refl, refl))
  flags_installed k r w true true false = (refl, refl, (refl, refl, refl))
  flags_installed k r w true true true = (refl, refl, (refl, refl, refl))

  -- The handlers are installed once: installing them again calls libdbus no more, whatever was
  -- installed before, and afterwards all three are installed on the same raw connection.
  pub install_handlers_once :
      (s : State api)
      → let t = install_handlers api s in
        (install_handlers api t ≡ t) × (t.conn.raw ≡ s.conn.raw) × AllInstalled t
  install_handlers_once s =
      flags_installed s.conn.kind s.conn.raw s.world s.conn.watch_handler_installed
        s.conn.timeout_handler_installed s.conn.dispatch_handler_installed

  -- What the destructor and close do to a connection of the kind.
  pub EndsAs : ConnectionKind → State api → Type 0
  EndsAs private_connection s =
      (w : api.World) × (destroy api s ≡ done w) × (api.is_closed w (s.conn.raw) ≡ true)
  EndsAs shared_connection s =
      (w : api.World) × (destroy api s ≡ done w)
      × (api.is_closed w (s.conn.raw) ≡ api.is_closed s.world (s.conn.raw))
      × (close api s ≡ abort)

  ends_as :
      (k : ConnectionKind) (r : ℕ) (w : api.World) (a b c : Bool)
      → EndsAs k (with_flags k r w a b c)
  unfolding EndsAs destroy close
  ends_as private_connection r w a b c = (
    api.unref (api.close w r) r,
    refl,
    api.is_closed-unref (api.close w r) r ∙ api.is_closed-close w r,
  )
  ends_as shared_connection r w a b c = (api.unref w r, refl, api.is_closed-unref w r, refl)

  -- Destroying a private connection closes it and destroying a shared one leaves it as open or
  -- closed as it was, for its other users; closing a shared connection by hand fails an
  -- assertion. No destructor fails one.
  pub destroy_closes : (s : State api) → EndsAs s.conn.kind s
  destroy_closes s =
      ends_as s.conn.kind s.conn.raw s.world s.conn.watch_handler_installed
        s.conn.timeout_handler_installed s.conn.dispatch_handler_installed
