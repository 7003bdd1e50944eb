-- ===== src/Wire/Execute/Requests.antt =====
-- How many requests one call of `pdo_frostlake_execute` sends.
use frostlake_pdo.Libc.{bytes_eq}
use frostlake_pdo.Prelude.{
  Bool, Bytes, List, [], ap, arith, codes, false, length, not, refl, ℕ, ℤ, ◌&&◌, ◌*◌, ◌+◌, ◌∙◌, ◌∷◌,
  ◌≡◌,
}
use frostlake_pdo.Wire.Execute.{
  Answer, apply_scope, attempt, execute, just_started, refuse_again, retry, scope_loop,
  session_lost,
}
use frostlake_pdo.Wire.Execute.Within.{
  Within, Within-refl, Within-trans, branch, branch_on, clear_failure-Within, error-Within,
  forgotten-Within, on_done-Within, on_posted-Within, post-Within, same_scope,
}
use frostlake_pdo.Wire.Session.{count_unset, forget_session, post}
use frostlake_pdo.Wire.State.{
  Target, Transport, World, clear_failure, error, failure_sqlstate, on_handle,
}

module _ {S : Type 0} (t : Transport S) (target : Target) where
  -- A round of the scope's loop may stop, go on, or start over.
  scope_loop-Within :
      (entries : List (Bytes × Bool)) (restart : World S → Bool × World S) (k : ℕ) (w : World S)
      → ((w' : World S) → w'.handle.scope ≡ w.handle.scope → Within k w' (restart w').1)
      → Within (length entries + k) w (scope_loop t target restart entries w).1
  unfolding scope_loop
  scope_loop-Within [] restart k w again = record { same_fixed = refl; few = omega arith }
  scope_loop-Within ((sql, required) ∷ rest) restart k w again =
      on_posted-Within {k = length rest + k} (post t target sql count_unset w) _ _ _
        (post-Within t target sql count_unset w) (omega arith)
        (λ _ w' h. scope_loop-Within rest restart k w' (λ w'' e. again w'' (e ∙ same_scope h)))
        (λ w' h.
          let cleared = clear_failure-Within target w' in
          branch_on (λ (r : Bool × World S). Within (length rest + k) w' r.1)
            (not required && bytes_eq (failure_sqlstate target w') (codes "HY000"))
            (λ _. scope_loop t target restart rest (clear_failure target w')) (λ _. (false, w'))
            (Within-trans cleared
              (scope_loop-Within rest restart k (clear_failure target w')
                (λ w'' e. again w'' (e ∙ same_scope cleared ∙ same_scope h)))
              (omega arith))
            (Within-refl _ w'))
        (λ w' h.
          Within-trans (forgotten-Within w')
            (again (on_handle forget_session w') (same_scope (forgotten-Within w') ∙ same_scope h))
            (omega arith))

  refuse_again-Within : (w : World S) → Within 0 w (refuse_again t target w).1
  refuse_again-Within w = error-Within target _ _ w

  apply_scope-Within :
      (w : World S) → Within (2 * length w.handle.scope) w (apply_scope t target w).1
  unfolding apply_scope
  apply_scope-Within w =
      Within-trans (Within-refl 0 w)
        (scope_loop-Within w.handle.scope _ (length w.handle.scope) w λ w' e.
          Within-trans (Within-refl 0 w')
            (scope_loop-Within w'.handle.scope (refuse_again t target) 0 w'
              λ w'' _. refuse_again-Within w'')
            (omega (arith, ap length e)))
        (omega arith)

  refused-Within :
      (message : Bytes) (w : World S)
      → Within 0 w (error target (codes "08003") message (on_handle forget_session w))
  refused-Within message w =
      Within-trans (forgotten-Within w) (error-Within target _ message _) (omega arith)

  session_lost-Within : (w : World S) → Within 0 w (session_lost t target w).1
  unfolding session_lost
  session_lost-Within w =
      branch (λ (r : Bool × World S). Within 0 w r.1) w.handle.in_transaction (refused-Within _ w)
        (branch (λ (r : Bool × World S). Within 0 w r.1) w.handle.dirty (refused-Within _ w)
          (forgotten-Within w))

  retry-Within :
      (sql : Bytes) (count : ℤ) (w : World S)
      → Within (2 * length w.handle.scope + 1) w (retry t target sql count w).1
  unfolding retry
  retry-Within sql count w =
      on_done-Within {k = 2 * length w.handle.scope + 1} (session_lost t target w) _ _
        (session_lost-Within w) (omega arith)
        (λ w₁ h.
          on_done-Within {j = 2 * length w.handle.scope} {k = 1} (apply_scope t target w₁) _ _
            (Within-trans (Within-refl 0 w₁) (apply_scope-Within w₁)
              (omega (arith, ap length (same_scope h))))
            (omega arith)
            (λ w₂ _.
              on_posted-Within {k = 0} (post t target sql count w₂) _ _ _
                (post-Within t target sql count w₂) (omega arith)
                (λ _ w₃ _. record { same_fixed = refl; few = omega arith })
                (λ w₃ _. Within-refl 0 w₃) (λ w₃ _. refused-Within just_started w₃))
            (λ w₂ _. Within-refl 1 w₂))
        (λ w₁ _. Within-refl _ w₁)

  attempt-Within :
      (sql : Bytes) (count : ℤ) (w : World S)
      → Within (2 * length w.handle.scope + 2) w (attempt t target sql count w).1
  unfolding attempt
  attempt-Within sql count w =
      on_posted-Within {k = 2 * length w.handle.scope + 1} (post t target sql count w) _ _ _
        (post-Within t target sql count w) (omega arith)
        (λ _ w' _. record { same_fixed = refl; few = omega arith }) (λ w' _. Within-refl _ w')
        (λ w' h.
          Within-trans (Within-refl 0 w') (retry-Within sql count w')
            (omega (arith, ap length (same_scope h))))

  -- One call of `execute` keeps what the connection was opened with and its statement count, and sends
  -- at most two requests, and four more for each USE statement of the scope, whatever the server
  -- answers.
  pub execute-Within :
      (sql : Bytes) (count : ℤ) (w : World S)
      → Within (4 * length w.handle.scope + 2) w (execute t target sql count w).1
  unfolding execute
  execute-Within sql count w =
      branch_on (λ (r : Answer × World S). Within (4 * length w.handle.scope + 2) w r.1)
        w.handle.scope_pending _ _
        (on_done-Within {k = 2 * length w.handle.scope + 2} (apply_scope t target w) _ _
          (apply_scope-Within w) (omega arith)
          (λ w' h.
            Within-trans (Within-refl 0 w') (attempt-Within sql count w')
              (omega (arith, ap length (same_scope h))))
          (λ w' _. Within-refl _ w'))
        (Within-trans (Within-refl 0 w) (attempt-Within sql count w) (omega arith))
