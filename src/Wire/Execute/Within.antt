-- ===== src/Wire/Execute/Within.antt =====
-- What a call of frostlake_wire.c keeps of the connection, and how many requests it sends: the steps.
use frostlake_pdo.Json.Lookup.{get_bool, get_string}
use frostlake_pdo.Json.Value.{Json, object}
use frostlake_pdo.Prelude.{
  Bool, Bytes, List, Option, Parsed, ap, arith, codes, false, if◌then◌else◌, is_int, length, not,
  parsed, refl, some, true, ℕ, ℤ, ◌&&◌, ◌+◌, ◌∙◌, ◌≡◌, ◌≤◌,
}
use frostlake_pdo.Wire.Execute.{on_bool, on_done, on_posted}
use frostlake_pdo.Wire.Session.{
  Posted, absorb, failed, forget_session, gone, is_none, post, read_answer, read_body, read_reply,
  response, settle, timed_out, transport_failed,
}
use frostlake_pdo.Wire.State.{
  Handle, Reply, Request, Target, Transport, World, answered, clear_failure, error, on_connection,
  on_handle, on_statement, send, unreachable,
}

-- What a connection is opened with and keeps.
pub record Fixed : Type 0 where
  pub host : Bytes
  pub port : ℕ
  pub timeout : ℕ
  pub scope : List (Bytes × Bool)
  pub opened_auto_commit : Bool
  pub multi_statement_count : ℤ

abbrev pub fixed : Handle → Fixed
fixed h = record {
  host = h.host;
  port = h.port;
  timeout = h.timeout;
  scope = h.scope;
  opened_auto_commit = h.opened_auto_commit;
  multi_statement_count = h.multi_statement_count;
}

-- That is the same, and at most `k` requests went out.
pub record Within {S : Type 0} (k : ℕ) (w : World S) (w' : World S) : Type 0 where
  pub same_fixed : fixed w'.handle ≡ fixed w.handle
  pub few : length w'.sent ≤ length w.sent + k

absorb-fixed :
    (answer : Option Json) (sent_id : Bool) (h : Handle) → fixed (absorb answer sent_id h) ≡ fixed h
unfolding absorb settle forget_session
absorb-fixed answer sent_id h = ground arith

pub branch : {R : Type 0} (P : R → Type 0) (b : Bool) {x y : R} → P x → P y → P (if b then x else y)
branch P true px py = px
branch P false px py = py

pub branch_on :
    {R : Type 0} (P : R → Type 0) (b : Bool) (x y : Unit {0} → R)
    → P (x tt)
    → P (y tt)
    → P (on_bool b x y)
branch_on P true x y px py = px
branch_on P false x y px py = py

pub same_scope :
    {S : Type 0} {k : ℕ} {w w' : World S} → Within k w w' → w'.handle.scope ≡ w.handle.scope
same_scope h = ap (λ (f : Fixed). f.scope) h.same_fixed

module _ {S : Type 0} where
  pub Within-trans :
      {j k n : ℕ} {w w' w'' : World S}
      → Within j w w'
      → Within k w' w''
      → j + k ≤ n
      → Within n w w''
  Within-trans p q h = record {
    same_fixed = q.same_fixed ∙ p.same_fixed;
    few = omega (arith, p.few, q.few);
  }

  pub Within-refl : (k : ℕ) (w : World S) → Within k w w
  Within-refl k w = record { same_fixed = refl; few = omega arith }

  pub on_posted-Within :
      {X : Type 0} {j k n : ℕ} {w : World S} (p : Posted × World S)
      (answers : Json → World S → X × World S) (otherwise loses : World S → X × World S)
      → Within j w p.1
      → j + k ≤ n
      → ((answer : Json) (w' : World S) → Within j w w' → Within k w' (answers answer w').1)
      → ((w' : World S) → Within j w w' → Within k w' (otherwise w').1)
      → ((w' : World S) → Within j w w' → Within k w' (loses w').1)
      → Within n w (on_posted p answers otherwise loses).1
  on_posted-Within (response answer, w') answers otherwise loses h le a o l =
      Within-trans h (a answer w' h) le
  on_posted-Within (failed, w') answers otherwise loses h le a o l = Within-trans h (o w' h) le
  on_posted-Within (gone, w') answers otherwise loses h le a o l = Within-trans h (l w' h) le

  pub on_done-Within :
      {X : Type 0} {j k n : ℕ} {w : World S} (p : Bool × World S)
      (succeeds otherwise : World S → X × World S)
      → Within j w p.1
      → j + k ≤ n
      → ((w' : World S) → Within j w w' → Within k w' (succeeds w').1)
      → ((w' : World S) → Within j w w' → Within k w' (otherwise w').1)
      → Within n w (on_done p succeeds otherwise).1
  on_done-Within (true, w') succeeds otherwise h le s o = Within-trans h (s w' h) le
  on_done-Within (false, w') succeeds otherwise h le s o = Within-trans h (o w' h) le

  pub error-Within :
      (target : Target) (code message : Bytes) (w : World S)
      → Within 0 w (error target code message w)
  unfolding error
  error-Within on_connection code message w = record { same_fixed = refl; few = omega arith }
  error-Within on_statement code message w = record { same_fixed = refl; few = omega arith }

  pub clear_failure-Within : (target : Target) (w : World S) → Within 0 w (clear_failure target w)
  unfolding clear_failure
  clear_failure-Within on_connection w = record { same_fixed = refl; few = omega arith }
  clear_failure-Within on_statement w = record { same_fixed = refl; few = omega arith }

  pub forgotten-Within : (w : World S) → Within 0 w (on_handle forget_session w)
  unfolding forget_session
  forgotten-Within w = record { same_fixed = refl; few = omega arith }

  send-Within : (t : Transport S) (r : Request) (w : World S) → Within 1 w (send t r w).1
  send-Within t r w = record { same_fixed = refl; few = omega arith }

module _ {S : Type 0} (t : Transport S) (target : Target) where
  transport_failed-Within :
      (e : Option Bytes) (w : World S) → Within 0 w (transport_failed t target e w)
  unfolding transport_failed
  transport_failed-Within e w =
      branch (Within 0 w) (timed_out t e) (error-Within target _ _ w) (error-Within target _ _ w)

  absorbed-Within :
      (node : Option Json) (sent_id : Bool) (w : World S)
      → Within 0 w (on_handle (absorb node sent_id) w)
  absorbed-Within node sent_id w = record {
    same_fixed = absorb-fixed node sent_id w.handle;
    few = omega arith;
  }

  read_answer-Within :
      (sent_id require_session : Bool) (status : ℤ) (answer : Json) (w : World S)
      → Within 0 w (read_answer t target sent_id require_session status answer w).1
  unfolding read_answer
  read_answer-Within sent_id require_session status answer w =
      let absorbed = absorbed-Within (some answer) sent_id w in
      branch (λ (r : Posted × World S). Within 0 w r.1)
        (not (get_bool (some answer) (codes "success") false))
        (branch (λ (r : Posted × World S). Within 0 w r.1)
          (is_int status 404
            && require_session
            && is_none (get_string (some answer) (codes "sessionId")))
          (Within-refl 0 w) (Within-trans absorbed (error-Within target _ _ _) (omega arith)))
        absorbed

  read_body-Within :
      (sent_id require_session : Bool) (status : ℤ) (body : Bytes) (p : Parsed Json) (w : World S)
      → Within 0 w (read_body t target sent_id require_session status body p w).1
  read_body-Within sent_id require_session status body (parsed (object ms)) w =
      read_answer-Within sent_id require_session status (object ms) w
  read_body-Within sent_id require_session status body _ w = error-Within target _ _ w

  read_reply-Within :
      (sent_id require_session : Bool) (r : Reply) (w : World S)
      → Within 0 w (read_reply t target sent_id require_session r w).1
  read_reply-Within sent_id require_session (unreachable e) w = transport_failed-Within e w
  read_reply-Within sent_id require_session (answered status body) w =
      read_body-Within sent_id require_session status body _ w

  pub post-Within :
      (sql : Bytes) (count : ℤ) (w : World S) → Within 1 w (post t target sql count w).1
  unfolding post
  post-Within sql count w =
      Within-trans (send-Within t _ w) (read_reply-Within _ _ _ _) (omega arith)
