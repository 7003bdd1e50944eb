-- ===== src/Wire/Execute/Alive.antt =====
-- What the liveness check and the release of a session do to the connection.
use frostlake_pdo.Prelude.{
  All, Bool, Bool-cases, Bytes, Option-cases, [], arith, codes, false, inl, inr, not, refl, some,
  true, ◌&&◌, ◌++◌, ◌||◌, ◌∷◌, ◌≡◌, ◌⊎◌,
}
use frostlake_pdo.Wire.Execute.{
  is_token_byte, probe, release_session, session_alive, short_timeout, token_ok,
}
use frostlake_pdo.Wire.Execute.Once.{post-gone}
use frostlake_pdo.Wire.Session.{count_unset, gone, has_session, is_tracked, post}
use frostlake_pdo.Wire.State.{Handle, Transport, World, delete_at, on_connection}

-- Whether the session holds what a fresh one would not.
abbrev pub holds_state : Handle → Bool
holds_state h = h.dirty || h.in_transaction

with_session : (a b : Bool) → a ≡ true → (not a && b) ≡ false
with_session a b e = ground arith

with_state : (a b : Bool) → (a || b) ≡ true → (not a && not b) ≡ false
with_state a b e = ground arith

token_ok-All : (s : Bytes) → token_ok s ≡ true → All (λ c. is_token_byte c ≡ true) s
unfolding token_ok
token_ok-All [] e = tt
token_ok-All (c ∷ s) e = (ground arith, token_ok-All s (ground arith))

module _ {S : Type 0} (t : Transport S) where
  -- The liveness check of a connection whose session holds a transaction or context does not replace
  -- a session that the engine has lost: it answers false, and the connection is as it was, so that
  -- the next statement reports the loss.
  pub session_alive-lost :
      (w w' : World S)
      → has_session w.handle ≡ true
      → holds_state w.handle ≡ true
      → post t on_connection probe count_unset w ≡ (gone, w')
      → ((session_alive t w).0 ≡ false) × ((session_alive t w).1.handle ≡ w.handle)
  unfolding session_alive
  session_alive-lost w w' some_session held lost_session =
      let (_, _, same, _) = post-gone t on_connection probe count_unset w w' lost_session in
      rw
        (
          with_session (has_session w.handle) (not w.handle.scope_pending) some_session,
          with_state w.handle.dirty w.handle.in_transaction held,
          lost_session,
        )
        (refl, same)

  -- Releasing a session asks the server for nothing, or for the deletion of the session that the
  -- connection holds; it asks only an engine that tracks sessions, and only with an id of token bytes.
  pub release_session-sent :
      (w : World S)
      → ((release_session t w).sent ≡ w.sent)
        ⊎ ((id : Bytes) × (w.handle.session_id ≡ some id)
            × (is_tracked w.handle.tracks_sessions ≡ true)
            × All (λ c. is_token_byte c ≡ true) id
            × ((release_session t w).sent
                ≡ delete_at (codes "/api/sessions/" ++ id) (short_timeout w.handle) ∷ w.sent))
  unfolding release_session
  release_session-sent w = elim (Option-cases w.handle.session_id) [
    | inl e ↦ rw (e, release_session) (inl refl)
    | inr (id, e) ↦ elim (Bool-cases (is_tracked w.handle.tracks_sessions && token_ok id)) [
      | inr no_request ↦ rw (e, release_session) (rw no_request (inl refl))
      | inl asks ↦
          rw (e, release_session)
            (rw asks (inr (id, refl, ground arith, token_ok-All id (ground arith), refl)))
    ]
  ]
