-- ===== src/Wire/Execute.antt =====
-- `apply_scope`, `session_lost`, `pdo_frostlake_execute` and the calls that end or check a session,
-- of frostlake_wire.c.
pub mod Once
pub mod Within
pub mod Requests
pub mod Alive
pub mod Pending
pub mod Told
pub mod Serves
pub mod Recovers
use frostlake_pdo.Json.Value.{Json}
use frostlake_pdo.Libc.{bytes_eq, decimal, isalnum}
use frostlake_pdo.Prelude.{
  Bool, Bytes, List, Option, [], codes, false, if◌then◌else◌, is_int, ltb, none, not, some, true, ℕ,
  ℤ, ◌&&◌, ◌++◌, ◌==◌, ◌||◌, ◌∷◌,
}
use frostlake_pdo.Sql.Session.{track_session}
use frostlake_pdo.Wire.Session.{
  Posted, count_unset, failed, forget_session, gone, has_session, is_tracked, or_text, post,
  response, server_name,
}
use frostlake_pdo.Wire.State.{
  Handle, Reply, Target, Transport, World, answered, clear_failure, delete_at, error,
  failure_sqlstate, get_from, on_connection, on_handle, send, unreachable,
}

-- The answer, or NULL.
abbrev pub Answer : Type 0
Answer = Option Json

abbrev pub connect_timeout : ℕ
connect_timeout = 10

abbrev pub lost : Bytes
lost =
    codes
      "The Frostlake session of this connection no longer exists (it expired, was released, or the server restarted)"

abbrev pub just_started : Bytes
just_started = codes "The Frostlake engine refused a session it had just started"

-- A limit of 0 means none; the health check and the release keep their own.
abbrev pub short_timeout : Handle → ℕ
short_timeout h =
    if ltb 0 h.timeout && ltb h.timeout connect_timeout then h.timeout else connect_timeout

abbrev pub is_token_byte : ℕ → Bool
is_token_byte c = isalnum c || c == b'-' || c == b'_'

unfoldable pub token_ok : Bytes → Bool
token_ok [] = true
token_ok (c ∷ s) = is_token_byte c && token_ok s

module _ {S : Type 0} {R : Type 0} where
  -- The three outcomes of `post`, and the two of a call that answers false when it has failed.
  abbrev pub on_posted : Posted × World S → (Json → World S → R) → (World S → R) → (World S → R) → R
  on_posted (response answer, w) answers otherwise loses = answers answer w
  on_posted (failed, w) answers otherwise loses = otherwise w
  on_posted (gone, w) answers otherwise loses = loses w

  abbrev pub on_done : Bool × World S → (World S → R) → (World S → R) → R
  on_done (true, w) succeeds otherwise = succeeds w
  on_done (false, w) succeeds otherwise = otherwise w

abbrev pub on_bool : {R : Type 0} → Bool → (Unit {0} → R) → (Unit {0} → R) → R
on_bool true x y = x tt
on_bool false x y = y tt

abbrev pub probe : Bytes
probe = codes "SELECT 1"

abbrev pub is_answer : Answer → Bool
is_answer none = false
is_answer (some _) = true

abbrev pub is_response : Posted → Bool
is_response (response _) = true
is_response _ = false

module _ {S : Type 0} where
  -- The answer to the health check.
  unfoldable pub health_of : Reply → World S → Bool × World S
  health_of (unreachable e) w = (
    false,
    error on_connection (codes "08001")
        (codes "Cannot reach the Frostlake server at "
          ++ (server_name w.handle ++ (codes ": " ++ or_text e (codes "transport failure"))))
        w,
  )
  health_of (answered status body) w = if is_int status 200 then (true, w) else (
    false,
    error on_connection (codes "08001")
        (codes "The Frostlake server at "
          ++ (server_name w.handle
              ++ (codes " is not healthy (HTTP " ++ (decimal status ++ codes ")"))))
        w,
  )

module _ {S : Type 0} (t : Transport S) where
  -- The loop of `apply_scope` over the entries that are left; `restart` is what it does when the
  -- engine does not hold the session.
  unfoldable pub scope_loop :
      Target → (World S → Bool × World S) → List (Bytes × Bool) → World S → Bool × World S
  scope_loop target restart [] w = (true, on_handle (λ h. record h { scope_pending = false }) w)
  scope_loop target restart ((sql, required) ∷ rest) w =
      on_posted (post t target sql count_unset w) (λ _ w'. scope_loop target restart rest w')
        (λ w'.
          on_bool (not required && bytes_eq (failure_sqlstate target w') (codes "HY000"))
            (λ _. scope_loop target restart rest (clear_failure target w')) (λ _. (false, w')))
        (λ w'. restart (on_handle forget_session w'))

  abbrev pub refuse_again : Target → World S → Bool × World S
  refuse_again target w = (false, error target (codes "08003") just_started w)

  -- `apply_scope`: a session that is gone part-way starts the scope over, once.
  unfoldable pub apply_scope : Target → World S → Bool × World S
  apply_scope target w =
      scope_loop target (λ w'. scope_loop target (refuse_again target) w'.handle.scope w')
        w.handle.scope w

  -- `session_lost`
  unfoldable pub session_lost : Target → World S → Bool × World S
  session_lost target w =
      let h = w.handle in
      let forgotten = on_handle forget_session w in
      if h.in_transaction
      then (
        false,
        error target (codes "08003")
            (lost ++ codes ", so its open transaction is gone; the statement did not run")
            forgotten,
      )
      else if h.dirty
      then (
        false,
        error target (codes "08003")
            (lost
              ++ codes
                  ", and the context set up on it (USE, SET, ALTER SESSION or a temporary object) went with it, so the statement was not re-run; the next statement starts a fresh session on the connection's scope")
            forgotten,
      )
      else (true, forgotten)

  -- `pdo_frostlake_track_session` on the handle.
  abbrev pub track : Bytes → Handle → Handle
  track sql h =
      let after =
        track_session h.opened_auto_commit sql
          (record { dirty = h.dirty; in_transaction = h.in_transaction }) in
      record h { dirty = after.dirty; in_transaction = after.in_transaction }

  -- The second try, on a fresh session.
  unfoldable pub retry : Target → Bytes → ℤ → World S → Answer × World S
  retry target sql count w =
      on_done (session_lost target w)
        (λ w₁.
          on_done (apply_scope target w₁)
            (λ w₂.
              on_posted (post t target sql count w₂)
                (λ answer w₃. (some answer, on_handle (track sql) w₃)) (λ w₃. (none, w₃))
                (λ w₃.
                  (none, error target (codes "08003") just_started (on_handle forget_session w₃))))
            (λ w₂. (none, w₂)))
        (λ w₁. (none, w₁))

  -- The first try.
  unfoldable pub attempt : Target → Bytes → ℤ → World S → Answer × World S
  attempt target sql count w =
      on_posted (post t target sql count w) (λ answer w'. (some answer, on_handle (track sql) w'))
        (λ w'. (none, w')) (λ w'. retry target sql count w')

  -- `pdo_frostlake_execute`, on an open connection.
  unfoldable pub execute : Target → Bytes → ℤ → World S → Answer × World S
  execute target sql count w =
      on_bool w.handle.scope_pending
        (λ _. on_done (apply_scope target w) (λ w'. attempt target sql count w') (λ w'. (none, w')))
        (λ _. attempt target sql count w)

  -- `pdo_frostlake_healthy`
  unfoldable pub healthy : World S → Bool × World S
  healthy w =
      let (reply, w') = send t (get_from (codes "/api/health") (short_timeout w.handle)) w in
      health_of reply w'

  -- `pdo_frostlake_session_alive`
  unfoldable pub session_alive : World S → Bool × World S
  session_alive w =
      let h = w.handle in
      let fresh = execute on_connection probe count_unset w in
      let held = post t on_connection probe count_unset w in
      if not (has_session h) && not h.scope_pending
      then healthy w
      else if not h.dirty && not h.in_transaction
      then (is_answer fresh.0, fresh.1)
      else (is_response held.0, held.1)

  -- `pdo_frostlake_release_session`
  unfoldable pub release_session : World S → World S
  release_session w = elim w.handle.session_id [
    | none ↦ w
    | some id ↦
        (if is_tracked w.handle.tracks_sessions && token_ok id
          then (send t (delete_at (codes "/api/sessions/" ++ id) (short_timeout w.handle)) w).1
          else w)
  ]
