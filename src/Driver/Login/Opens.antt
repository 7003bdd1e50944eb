-- ===== src/Driver/Login/Opens.antt =====
-- What opening a connection leaves: on success a connection on the data source's scope, on failure
-- an exception and no handle.
use frostlake_pdo.Driver.Dbh.{Dbh, free_handle}
use frostlake_pdo.Driver.Login.{
  DataSource, and_then, connection_error, finish_login, handle_factory, healthy_on, invalid_port,
  log_in, on_world, opened_handle, port_key, port_of, use_scope,
}
use frostlake_pdo.Driver.Login.Scope.{
  LoginStep, Thrown, and_then-LoginStep, healthy_on-LoginStep, profile, thrown-error,
  use_scope-LoginStep,
}
use frostlake_pdo.Prelude.{
  Bool, Bytes, Option, Option-cases, codes, false, inl, inr, none, refl, some, subst, sym, true, ℕ,
  ℤ, ◌&&◌, ◌∙◌, ◌≡◌,
}
use frostlake_pdo.Wire.Execute.{release_session, token_ok}
use frostlake_pdo.Wire.Execute.Within.{branch, fixed}
use frostlake_pdo.Wire.Session.{is_tracked}
use frostlake_pdo.Wire.State.{Transport, World, on_handle}

module _ {S : Type 0} (t : Transport S) where
  -- What `pdo_frostlake_handle_factory` leaves.
  pub record Opened (source : DataSource) (timeout : Option ℤ) (auto_commit : Bool) (d : Dbh S)
      : Type 0 where
    pub held : d.freed ≡ false
    pub connected : d.world.connected ≡ true
    pub clean : d.world.handle.dirty ≡ false
    pub no_transaction : d.world.handle.in_transaction ≡ false
    pub port : ℕ
    pub valid_port : port_of (port_key source) ≡ some port
    pub opened_with : fixed d.world.handle ≡ profile source timeout auto_commit port

  pub record Abandoned (d : Dbh S) : Type 0 where
    pub let_go : d.freed ≡ true
    pub message : Bytes
    pub thrown : d.world.thrown ≡ some message

  abbrev pub Login : DataSource → Option ℤ → Bool → Bool × Dbh S → Type 0
  Login source timeout auto_commit (true, d) = Opened source timeout auto_commit d
  Login source timeout auto_commit (false, d) = Abandoned d

  release_session-thrown : (w : World S) → (release_session t w).thrown ≡ w.thrown
  unfolding release_session
  release_session-thrown w = elim (Option-cases w.handle.session_id) [
    | inl no_id ↦ rw no_id refl
    | inr (id, has_id) ↦ rw has_id (
        branch (λ (v : World S). v.thrown ≡ w.thrown)
          (is_tracked w.handle.tracks_sessions && token_ok id) refl refl)
  ]

  finish_login-Abandoned : (d : Dbh S) → Thrown d → Abandoned (finish_login t (false, d)).1
  unfolding free_handle
  finish_login-Abandoned d (message, thrown) = record {
    let_go = refl;
    message = message;
    thrown = release_session-thrown d.world ∙ thrown;
  }

  finish_login-Login :
      (source : DataSource) (timeout : Option ℤ) (auto_commit : Bool) (port : ℕ) (r : Bool × Dbh S)
      → port_of (port_key source) ≡ some port
      → LoginStep (profile source timeout auto_commit port) r
      → Login source timeout auto_commit (finish_login t r)
  finish_login-Login source timeout auto_commit port (true, d) e r = record {
    held = r.held;
    connected = refl;
    clean = refl;
    no_transaction = refl;
    port = port;
    valid_port = e;
    opened_with = r.opened_with;
  }
  finish_login-Login source timeout auto_commit port (false, d) e thrown =
      finish_login-Abandoned d thrown

  log_in-refused :
      (source : DataSource) (d : Dbh S)
      → port_of (port_key source) ≡ none
      → log_in t source d ≡ (false, connection_error (invalid_port (port_key source)) d)
  unfolding log_in
  log_in-refused source d e = rw (e, log_in) refl

  abbrev with_port : ℕ → Dbh S → Dbh S
  with_port port d = on_world (on_handle (λ h. record h { port = port })) d

  log_in-valid :
      (source : DataSource) (port : ℕ) (d : Dbh S)
      → port_of (port_key source) ≡ some port
      → log_in t source d ≡ and_then (healthy_on t (with_port port d)) (use_scope t source)
  unfolding log_in
  log_in-valid source port d e = rw (e, log_in) refl

  -- The connection as it is before the port's check.
  abbrev begun : DataSource → Option ℤ → Dbh S → Dbh S
  begun source timeout d = record d {
    freed = false;
    world = record (d.world) { handle = opened_handle source timeout d.auto_commit };
  }

  -- While PDO connects, `pdo_frostlake_handle_factory` either opens a connection whose session is
  -- clean, on the data source's host, port, timeout and scope, or throws and frees the handle.
  pub handle_factory-Login :
      (source : DataSource) (timeout : Option ℤ) (d : Dbh S)
      → d.world.connected ≡ false
      → Login source timeout d.auto_commit (handle_factory t source timeout d)
  unfolding handle_factory opened_handle
  handle_factory-Login source timeout d connecting =
      let start = begun source timeout d in
      let Goal = λ (r : Bool × Dbh S). Login source timeout d.auto_commit (finish_login t r) in
      elim (Option-cases (port_of (port_key source))) [
        | inl refused_port ↦ subst Goal (sym (log_in-refused source start refused_port)) (
            finish_login-Abandoned (connection_error (invalid_port (port_key source)) start) (
              thrown-error (codes "08001") (invalid_port (port_key source)) start.world connecting))
        | inr (port, valid) ↦ subst Goal (sym (log_in-valid source port start valid)) (
            finish_login-Login source timeout d.auto_commit port _ valid (
              and_then-LoginStep _ _ (use_scope t source)
                (healthy_on-LoginStep t (with_port port start)
                  (record { held = refl; connecting = connecting; opened_with = refl }))
                (use_scope-LoginStep t _ source)))
      ]
