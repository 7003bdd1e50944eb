-- ===== src/Wire/Execute/Pending.antt =====
-- The scope stays pending until it has gone onto a session whole.
use frostlake_pdo.Json.Lookup.{get_bool, get_string}
use frostlake_pdo.Json.Value.{Json, object}
use frostlake_pdo.Libc.{bytes_eq}
use frostlake_pdo.Prelude.{
  Bool, Bytes, List, Option, Parsed, [], arith, codes, false, is_int, not, parsed, refl, some, true,
  ℤ, ◌&&◌, ◌∷◌, ◌≡◌,
}
use frostlake_pdo.Wire.Execute.{apply_scope, on_posted, refuse_again, scope_loop}
use frostlake_pdo.Wire.Execute.Within.{branch, branch_on}
use frostlake_pdo.Wire.Session.{
  Posted, absorb, count_unset, failed, forget_session, gone, is_none, post, read_answer, read_body,
  read_reply, response, settle, timed_out, transport_failed,
}
use frostlake_pdo.Wire.State.{
  Handle, Reply, Target, Transport, World, answered, clear_failure, error, failure_sqlstate,
  on_connection, on_handle, on_statement, unreachable,
}

-- The scope is to go on before the next statement.
pub record Pending {S : Type 0} (w : World S) : Type 0 where
  pub is_pending : w.handle.scope_pending ≡ true

absorb-pending :
    (answer : Option Json) (sent_id : Bool) (h : Handle)
    → h.scope_pending ≡ true
    → (absorb answer sent_id h).scope_pending ≡ true
unfolding absorb settle forget_session
absorb-pending answer sent_id h e = ground arith

module _ {S : Type 0} where
  error-Pending :
      (target : Target) (code message : Bytes) (w : World S)
      → Pending w
      → Pending (error target code message w)
  unfolding error
  error-Pending on_connection code message w p = record { is_pending = p.is_pending }
  error-Pending on_statement code message w p = record { is_pending = p.is_pending }

  clear_failure-Pending :
      (target : Target) (w : World S) → Pending w → Pending (clear_failure target w)
  unfolding clear_failure
  clear_failure-Pending on_connection w p = record { is_pending = p.is_pending }
  clear_failure-Pending on_statement w p = record { is_pending = p.is_pending }

module _ {S : Type 0} (t : Transport S) (target : Target) where
  absorbed-Pending :
      (node : Option Json) (sent_id : Bool) (w : World S)
      → Pending w
      → Pending (on_handle (absorb node sent_id) w)
  absorbed-Pending node sent_id w p = record {
    is_pending = absorb-pending node sent_id w.handle p.is_pending;
  }

  transport_failed-Pending :
      (e : Option Bytes) (w : World S) → Pending w → Pending (transport_failed t target e w)
  unfolding transport_failed
  transport_failed-Pending e w p =
      branch Pending (timed_out t e) (error-Pending target _ _ w p) (error-Pending target _ _ w p)

  read_answer-Pending :
      (sent_id require_session : Bool) (status : ℤ) (answer : Json) (w : World S)
      → Pending w
      → Pending (read_answer t target sent_id require_session status answer w).1
  unfolding read_answer
  read_answer-Pending sent_id require_session status answer w p =
      let absorbed = absorbed-Pending (some answer) sent_id w p in
      branch (λ (r : Posted × World S). Pending r.1)
        (not (get_bool (some answer) (codes "success") false))
        (branch (λ (r : Posted × World S). Pending r.1)
          (is_int status 404
            && require_session
            && is_none (get_string (some answer) (codes "sessionId")))
          p (error-Pending target _ _ _ absorbed))
        absorbed

  read_body-Pending :
      (sent_id require_session : Bool) (status : ℤ) (body : Bytes) (o : Parsed Json) (w : World S)
      → Pending w
      → Pending (read_body t target sent_id require_session status body o w).1
  read_body-Pending sent_id require_session status body (parsed (object ms)) w p =
      read_answer-Pending sent_id require_session status (object ms) w p
  read_body-Pending sent_id require_session status body _ w p = error-Pending target _ _ w p

  read_reply-Pending :
      (sent_id require_session : Bool) (r : Reply) (w : World S)
      → Pending w
      → Pending (read_reply t target sent_id require_session r w).1
  read_reply-Pending sent_id require_session (unreachable e) w p = transport_failed-Pending e w p
  read_reply-Pending sent_id require_session (answered status body) w p =
      read_body-Pending sent_id require_session status body _ w p

  post-Pending :
      (sql : Bytes) (count : ℤ) (w : World S) → Pending w → Pending (post t target sql count w).1
  unfolding post
  post-Pending sql count w p = read_reply-Pending _ _ _ _ (record { is_pending = p.is_pending })

-- A call that succeeds has put the scope on, and one that fails has left it pending.
pub record Settled {S : Type 0} (r : Bool × World S) : Type 0 where
  pub settled : r.1.handle.scope_pending ≡ not r.0

module _ {S : Type 0} where
  on_posted-Settled :
      (p : Posted × World S) (answers : Json → World S → Bool × World S)
      (otherwise loses : World S → Bool × World S)
      → Pending p.1
      → ((answer : Json) (w : World S) → Pending w → Settled (answers answer w))
      → ((w : World S) → Pending w → Settled (otherwise w))
      → ((w : World S) → Pending w → Settled (loses w))
      → Settled (on_posted p answers otherwise loses)
  on_posted-Settled (response answer, w) answers otherwise loses h a o l = a answer w h
  on_posted-Settled (failed, w) answers otherwise loses h a o l = o w h
  on_posted-Settled (gone, w) answers otherwise loses h a o l = l w h

  failed-Settled : (w : World S) → Pending w → Settled (false, w)
  failed-Settled w p = record { settled = p.is_pending }

  forgotten-Pending : (w : World S) → Pending (on_handle forget_session w)
  unfolding forget_session
  forgotten-Pending w = record { is_pending = refl }

module _ {S : Type 0} (t : Transport S) (target : Target) where
  scope_loop-Settled :
      (entries : List (Bytes × Bool)) (restart : World S → Bool × World S) (w : World S)
      → Pending w
      → ((w' : World S) → Pending w' → Settled (restart w'))
      → Settled (scope_loop t target restart entries w)
  unfolding scope_loop
  scope_loop-Settled [] restart w p again = record { settled = refl }
  scope_loop-Settled ((sql, required) ∷ rest) restart w p again =
      on_posted-Settled (post t target sql count_unset w) _ _ _
        (post-Pending t target sql count_unset w p)
        (λ _ w' p'. scope_loop-Settled rest restart w' p' again)
        (λ w' p'.
          branch_on Settled (not required && bytes_eq (failure_sqlstate target w') (codes "HY000"))
            (λ _. scope_loop t target restart rest (clear_failure target w')) (λ _. (false, w'))
            (scope_loop-Settled rest restart (clear_failure target w')
              (clear_failure-Pending target w' p') again)
            (failed-Settled w' p'))
        (λ w' _. again (on_handle forget_session w') (forgotten-Pending w'))

  -- A pending scope is settled by `apply_scope` exactly when it succeeds: where it fails, whatever
  -- the server answered, the scope is pending still.
  pub apply_scope-Settled : (w : World S) → Pending w → Settled (apply_scope t target w)
  unfolding apply_scope
  apply_scope-Settled w p = scope_loop-Settled w.handle.scope _ w p λ w' p'.
      scope_loop-Settled w'.handle.scope (refuse_again t target) w' p'
        λ w'' p''. failed-Settled _ (error-Pending target _ _ w'' p'')
