-- ===== src/Wire/Execute/Once.antt =====
-- When a statement is sent again, and when it is not.
use frostlake_pdo.Json.Value.{Json, array, bool, null, number, object, string}
use frostlake_pdo.Prelude.{
  Bool, Bytes, Parsed, ap, arith, codes, false, if◌then◌else◌, length, none, out_of_fuel, parsed,
  refl, refused, subst, suc, sym, true, ℤ, ◌&&◌, ◌||◌, ◌∙◌, ◌≡◌,
}
use frostlake_pdo.Wire.Execute.{Answer, attempt, execute, retry, session_lost}
use frostlake_pdo.Wire.Session.{
  forget_session, gone, has_session, is_tracked, post, read_answer, read_body, read_reply,
}
use frostlake_pdo.Wire.State.{
  Handle, Reply, Target, Transport, World, answered, error, failure_sqlstate, on_connection,
  on_handle, on_statement, unreachable,
}

module _ {S : Type 0} (t : Transport S) (target : Target) (sql : Bytes) (count : ℤ) where
  read_answer-gone :
      (sent_id require_session : Bool) (status : ℤ) (answer : Json) (w w' : World S)
      → read_answer t target sent_id require_session status answer w ≡ (gone, w')
      → (require_session ≡ true) × (w' ≡ w)
  unfolding read_answer
  read_answer-gone sent_id require_session status answer w w' e = ground arith

  read_body-gone :
      (sent_id require_session : Bool) (status : ℤ) (body : Bytes) (p : Parsed Json)
      (w w' : World S)
      → read_body t target sent_id require_session status body p w ≡ (gone, w')
      → (require_session ≡ true) × (w' ≡ w)
  read_body-gone sent_id require_session status body (parsed (object ms)) w w' e =
      read_answer-gone sent_id require_session status (object ms) w w' e
  read_body-gone sent_id require_session status body (parsed null) w w' e = ground arith
  read_body-gone sent_id require_session status body (parsed (bool b)) w w' e = ground arith
  read_body-gone sent_id require_session status body (parsed (number l)) w w' e = ground arith
  read_body-gone sent_id require_session status body (parsed (string s)) w w' e = ground arith
  read_body-gone sent_id require_session status body (parsed (array xs)) w w' e = ground arith
  read_body-gone sent_id require_session status body refused w w' e = ground arith
  read_body-gone sent_id require_session status body out_of_fuel w w' e = ground arith

  pub read_reply-gone :
      (sent_id require_session : Bool) (r : Reply) (w w' : World S)
      → read_reply t target sent_id require_session r w ≡ (gone, w')
      → (require_session ≡ true) × (w' ≡ w)
  read_reply-gone sent_id require_session (unreachable e) w w' h = ground arith
  read_reply-gone sent_id require_session (answered status body) w w' h =
      read_body-gone sent_id require_session status body _ w w' h

  -- `post` reports a lost session only for a request that carried `requireSession`, on a session of
  -- an engine that tracks them, and leaves the connection as it was.
  pub post-gone :
      (w w' : World S)
      → post t target sql count w ≡ (gone, w')
      → (has_session w.handle ≡ true)
        × (is_tracked w.handle.tracks_sessions ≡ true)
        × (w'.handle ≡ w.handle)
        × (length w'.sent ≡ suc (length w.sent))
  unfolding post
  post-gone w w' e =
      let require_session = has_session w.handle && is_tracked w.handle.tracks_sessions in
      let (required, same) = read_reply-gone (has_session w.handle) require_session _ _ w' e in
      (ground arith, ground arith, ap (λ v. v.handle) same, ap (λ v. length v.sent) same)

-- What a refused session leaves: the id dropped, nothing held on it, and the scope to be put on again.
pub record Forgotten (h : Handle) : Type 0 where
  pub no_session : h.session_id ≡ none
  pub clean : h.dirty ≡ false
  pub no_transaction : h.in_transaction ≡ false
  pub pending : h.scope_pending ≡ true

-- What `session_lost` leaves when it refuses: its handle, its code, and the requests so far.
pub record Refused {S : Type 0} (target : Target) (before : World S) (after : World S)
    : Type 0 where
  pub forgotten : Forgotten after.handle
  pub sqlstate : failure_sqlstate target after ≡ codes "08003"
  pub unsent : after.sent ≡ before.sent

module _ {S : Type 0} where
  error-forgotten :
      (target : Target) (message : Bytes) (w : World S)
      → Refused target w (error target (codes "08003") message (on_handle forget_session w))
  unfolding error forget_session
  error-forgotten on_connection message w = record {
    forgotten = record { no_session = refl; clean = refl; no_transaction = refl; pending = refl };
    sqlstate = refl;
    unsent = refl;
  }
  error-forgotten on_statement message w = record {
    forgotten = record { no_session = refl; clean = refl; no_transaction = refl; pending = refl };
    sqlstate = refl;
    unsent = refl;
  }

either_branch :
    {R : Type 0} (P : R → Type 0) (a b : Bool) (x y z : R)
    → (a || b) ≡ true
    → P x
    → P y
    → P (if a then x else if b then y else z)
either_branch P true b x y z e px py = px
either_branch P false true x y z e px py = py
either_branch P false false x y z e px py = ground arith

pair_of : {A : Type 0} (p : Bool × A) → p.0 ≡ false → p ≡ (false, p.1)
pair_of p e = ap (λ b. (b, p.1)) e

module _ {S : Type 0} (t : Transport S) (target : Target) where
  session_lost-refuses :
      (w : World S)
      → (w.handle.in_transaction || w.handle.dirty) ≡ true
      → ((session_lost t target w).0 ≡ false) × Refused target w (session_lost t target w).1
  unfolding session_lost
  session_lost-refuses w held =
      either_branch (λ (r : Bool × World S). (r.0 ≡ false) × Refused target w r.1)
        w.handle.in_transaction w.handle.dirty _ _ _ held (refl, error-forgotten target _ w)
        (refl, error-forgotten target _ w)

  execute-refused :
      (sql : Bytes) (count : ℤ) (w w' : World S)
      → w.handle.scope_pending ≡ false
      → post t target sql count w ≡ (gone, w')
      → (session_lost t target w').0 ≡ false
      → execute t target sql count w ≡ (none, (session_lost t target w').1)
  unfolding execute attempt retry
  execute-refused sql count w w' settled lost_session refused_again =
      rw (lost_session, settled, pair_of (session_lost t target w') refused_again)

  -- A call of `execute` on a connection whose scope is on, and that holds a transaction or context
  -- the scope does not put on again, does not run the statement a second time when the engine
  -- answers that the session is gone: it gives no answer, its code is 08003, the session is
  -- forgotten with what it held, and the one request sent is the first try.
  pub execute-lost :
      (sql : Bytes) (count : ℤ) (w w' : World S)
      → w.handle.scope_pending ≡ false
      → (w.handle.in_transaction || w.handle.dirty) ≡ true
      → post t target sql count w ≡ (gone, w')
      → ((execute t target sql count w).0 ≡ none)
        × Forgotten (execute t target sql count w).1.handle
        × (failure_sqlstate target (execute t target sql count w).1 ≡ codes "08003")
        × (length (execute t target sql count w).1.sent ≡ suc (length w.sent))
  execute-lost sql count w w' settled held lost_session =
      let (_, _, same, one) = post-gone t target sql count w w' lost_session in
      let (refused_again, left) =
        session_lost-refuses w' (ap (λ h. h.in_transaction || h.dirty) same ∙ held) in
      let result = execute-refused sql count w w' settled lost_session refused_again in
      (
        ap (λ r. r.0) result,
        subst (λ (r : Answer × World S). Forgotten r.1.handle) (sym result) left.forgotten,
        ap (λ r. failure_sqlstate target r.1) result ∙ left.sqlstate,
        ap (λ r. length r.1.sent) result ∙ (ap length left.unsent ∙ one),
      )
