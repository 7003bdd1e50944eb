-- ===== src/Wire/Execute/Told.antt =====
-- A call of frostlake_wire.c that gives nothing has recorded why.
use frostlake_pdo.Json.Lookup.{get_bool, get_string}
use frostlake_pdo.Json.Value.{Json, object}
use frostlake_pdo.Libc.{bytes_eq}
use frostlake_pdo.Prelude.{
  Bool, Bytes, List, Parsed, [], codes, false, is_int, none, not, parsed, refl, some, subst, sym,
  take, true, ℤ, ◌&&◌, ◌||◌, ◌∷◌, ◌≡◌,
}
use frostlake_pdo.Wire.Execute.{
  Answer, apply_scope, attempt, execute, on_done, on_posted, retry, scope_loop, session_lost, track,
}
use frostlake_pdo.Wire.Execute.Within.{branch, branch_on}
use frostlake_pdo.Wire.Session.{
  Posted, count_unset, failed, forget_session, gone, is_none, post, read_answer, read_body,
  read_reply, response, timed_out, transport_failed,
}
use frostlake_pdo.Wire.State.{
  Reply, Target, Transport, World, answered, clear_failure, error, failure_message,
  failure_sqlstate, on_connection, on_handle, on_statement, unreachable,
}

-- The SQLSTATEs of a failed call.
pub data Failure : Bytes → Type 0 where
  timed_out_failure : Failure (codes "HYT00")
  link_failure : Failure (codes "08S01")
  engine_failure : Failure (codes "HY000")
  session_failure : Failure (codes "08003")

-- A message and a SQLSTATE stand where errors of the target are recorded.
pub record Told {S : Type 0} (target : Target) (w : World S) : Type 0 where
  pub message : Bytes
  pub recorded : failure_message target w ≡ some message
  pub coded : Failure (failure_sqlstate target w)

module _ {S : Type 0} (target : Target) where
  abbrev ToldUnless : Bool × World S → Type 0
  ToldUnless (true, w) = Unit
  ToldUnless (false, w) = Told target w

  abbrev ToldPost : Posted × World S → Type 0
  ToldPost (failed, w) = Told target w
  ToldPost (response answer, w) = Unit
  ToldPost (gone, w) = Unit

module _ {S : Type 0} (t : Transport S) (target : Target) where
  -- A call that gives an answer has taken note of what the statement does to the session.
  abbrev pub ToldAnswer : Bytes → Answer × World S → Type 0
  ToldAnswer sql (some answer, w) = (v : World S) × (w ≡ on_handle (track t sql) v)
  ToldAnswer sql (none, w) = Told target w

five : {state : Bytes} → Failure state → take 5 state ≡ state
five timed_out_failure = refl
five link_failure = refl
five engine_failure = refl
five session_failure = refl

module _ {S : Type 0} where
  error-Told :
      (target : Target) {state : Bytes} (message : Bytes) (w : World S)
      → Failure state
      → Told target (error target state message w)
  unfolding error
  error-Told on_connection message w f = record {
    message = message;
    recorded = refl;
    coded = subst Failure (sym (five f)) f;
  }
  error-Told on_statement message w f = record {
    message = message;
    recorded = refl;
    coded = subst Failure (sym (five f)) f;
  }

  on_posted-holds :
      {X : Type 0} (P : X × World S → Type 0) (target : Target) (p : Posted × World S)
      {answers : Json → World S → X × World S} {otherwise loses : World S → X × World S}
      → ToldPost target p
      → ((answer : Json) (w : World S) → P (answers answer w))
      → ((w : World S) → Told target w → P (otherwise w))
      → ((w : World S) → P (loses w))
      → P (on_posted p answers otherwise loses)
  on_posted-holds P target (response answer, w) h a o l = a answer w
  on_posted-holds P target (failed, w) h a o l = o w h
  on_posted-holds P target (gone, w) h a o l = l w

  on_done-holds :
      {X : Type 0} (P : X × World S → Type 0) (target : Target) (p : Bool × World S)
      {succeeds otherwise : World S → X × World S}
      → ToldUnless target p
      → ((w : World S) → P (succeeds w))
      → ((w : World S) → Told target w → P (otherwise w))
      → P (on_done p succeeds otherwise)
  on_done-holds P target (true, w) h s o = s w
  on_done-holds P target (false, w) h s o = o w h

module _ {S : Type 0} (t : Transport S) (target : Target) where
  read_answer-Told :
      (sent_id require_session : Bool) (status : ℤ) (answer : Json) (w : World S)
      → ToldPost target (read_answer t target sent_id require_session status answer w)
  unfolding read_answer
  read_answer-Told sent_id require_session status answer w =
      branch (ToldPost target) (not (get_bool (some answer) (codes "success") false))
        (branch (ToldPost target)
          (is_int status 404
            && require_session
            && is_none (get_string (some answer) (codes "sessionId")))
          tt
          (error-Told target _ _
            (branch Failure (is_int status 200 || is_int status 400) engine_failure link_failure)))
        tt

  read_body-Told :
      (sent_id require_session : Bool) (status : ℤ) (body : Bytes) (p : Parsed Json) (w : World S)
      → ToldPost target (read_body t target sent_id require_session status body p w)
  read_body-Told sent_id require_session status body (parsed (object ms)) w =
      read_answer-Told sent_id require_session status (object ms) w
  read_body-Told sent_id require_session status body _ w = error-Told target _ w link_failure

  read_reply-Told :
      (sent_id require_session : Bool) (r : Reply) (w : World S)
      → ToldPost target (read_reply t target sent_id require_session r w)
  unfolding transport_failed
  read_reply-Told sent_id require_session (unreachable e) w =
      branch (Told target) (timed_out t e) (error-Told target _ w timed_out_failure)
        (error-Told target _ w link_failure)
  read_reply-Told sent_id require_session (answered status body) w =
      read_body-Told sent_id require_session status body _ w

  post-Told : (sql : Bytes) (count : ℤ) (w : World S) → ToldPost target (post t target sql count w)
  unfolding post
  post-Told sql count w = read_reply-Told _ _ _ _

  scope_loop-Told :
      (entries : List (Bytes × Bool)) (restart : World S → Bool × World S) (w : World S)
      → ((w' : World S) → ToldUnless target (restart w'))
      → ToldUnless target (scope_loop t target restart entries w)
  unfolding scope_loop
  scope_loop-Told [] restart w again = tt
  scope_loop-Told ((sql, required) ∷ rest) restart w again =
      on_posted-holds (ToldUnless target) target (post t target sql count_unset w)
        (post-Told sql count_unset w) (λ _ w'. scope_loop-Told rest restart w' again)
        (λ w' told.
          branch_on (ToldUnless target)
            (not required && bytes_eq (failure_sqlstate target w') (codes "HY000")) _ _
            (scope_loop-Told rest restart (clear_failure target w') again) told)
        (λ w'. again (on_handle forget_session w'))

  apply_scope-Told : (w : World S) → ToldUnless target (apply_scope t target w)
  unfolding apply_scope
  apply_scope-Told w =
      scope_loop-Told w.handle.scope _ w
        λ w'. scope_loop-Told w'.handle.scope _ w' λ w''. error-Told target _ w'' session_failure

  session_lost-Told : (w : World S) → ToldUnless target (session_lost t target w)
  unfolding session_lost
  session_lost-Told w =
      branch (ToldUnless target) w.handle.in_transaction (error-Told target _ _ session_failure)
        (branch (ToldUnless target) w.handle.dirty (error-Told target _ _ session_failure) tt)

  retry-Told :
      (sql : Bytes) (count : ℤ) (w : World S) → ToldAnswer t target sql (retry t target sql count w)
  unfolding retry
  retry-Told sql count w =
      on_done-holds (ToldAnswer t target sql) target (session_lost t target w) (session_lost-Told w)
        (λ w₁.
          on_done-holds (ToldAnswer t target sql) target (apply_scope t target w₁)
            (apply_scope-Told w₁)
            (λ w₂.
              on_posted-holds (ToldAnswer t target sql) target (post t target sql count w₂)
                (post-Told sql count w₂) (λ _ v. (v, refl)) (λ _ told. told)
                (λ w₃. error-Told target _ _ session_failure))
            (λ _ told. told))
        (λ _ told. told)

  attempt-Told :
      (sql : Bytes) (count : ℤ) (w : World S)
      → ToldAnswer t target sql (attempt t target sql count w)
  unfolding attempt
  attempt-Told sql count w =
      on_posted-holds (ToldAnswer t target sql) target (post t target sql count w)
        (post-Told sql count w) (λ _ v. (v, refl)) (λ _ told. told) (λ w'. retry-Told sql count w')

  pub execute-Told :
      (sql : Bytes) (count : ℤ) (w : World S)
      → ToldAnswer t target sql (execute t target sql count w)
  unfolding execute
  execute-Told sql count w =
      branch_on (ToldAnswer t target sql) w.handle.scope_pending _ _
        (on_done-holds (ToldAnswer t target sql) target (apply_scope t target w)
          (apply_scope-Told w) (λ w'. attempt-Told sql count w') (λ _ told. told))
        (attempt-Told sql count w)
