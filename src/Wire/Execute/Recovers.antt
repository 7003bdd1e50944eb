-- ===== src/Wire/Execute/Recovers.antt =====
-- `pdo_frostlake_execute` after a session that held nothing is lost: the scope goes onto a fresh one, and
-- the statement runs there.
use frostlake_pdo.Json.Value.{Json}
use frostlake_pdo.Prelude.{
  Bool, Bytes, List, [], ap, false, refl, some, subst, sym, true, ℤ, ◌&&◌, ◌++◌, ◌∙◌, ◌∷◌, ◌≡◌,
}
use frostlake_pdo.Sql.Render.{finish}
use frostlake_pdo.Wire.Execute.{
  Answer, apply_scope, attempt, execute, on_done, on_posted, retry, session_lost, track,
}
use frostlake_pdo.Wire.Execute.Once.{read_reply-gone}
use frostlake_pdo.Wire.Execute.Serves.{
  Applied, Asked, Asked-trans, Served, Succeeds, applied, asked_next, asked_none, post-Served,
  scope_loop-Applied, scope_statements, served,
}
use frostlake_pdo.Wire.Session.{Posted, forget_session, gone, has_session, is_tracked, post}
use frostlake_pdo.Wire.State.{Handle, Request, Target, Transport, World, on_handle}

module _ {S : Type 0} (t : Transport S) (target : Target) (Serving : S → Type 0)
    (serves : (s : S) (r : Request)
      → Serving s
      → Succeeds (t.exchange s r).0 × Serving (t.exchange s r).1) where
  -- A statement that was answered, behind others.
  data Recovered (statements : List (Bytes × ℤ)) (before : List Request)
      : Answer × World S → Type 0 where
    recovered :
        {answer : Json} {w : World S}
        → Asked statements before w.sent
        → Recovered statements before (some answer, w)

  on_posted-Recovered :
      {xs ys : List (Bytes × ℤ)} {before between : List Request} {p : Posted × World S}
      (sql : Bytes) (otherwise loses : World S → Answer × World S)
      → Asked xs before between
      → Served t target Serving ys between p
      → Recovered
          (xs ++ ys)
          before
          (on_posted p (λ answer w'. (some answer, on_handle (track t sql) w')) otherwise loses)
  on_posted-Recovered sql otherwise loses asked (served more serving) =
      recovered (Asked-trans asked more)

  on_done-Recovered :
      {xs : List (Bytes × ℤ)} {before : List Request} {p : Bool × World S} (sql : Bytes) (count : ℤ)
      (otherwise : World S → Answer × World S) (finish : World S → Answer × World S)
      → ((w : World S)
          → Asked xs before w.sent
          → Serving w.server
          → Recovered (xs ++ (sql, count) ∷ []) before (finish w))
      → Applied t target Serving serves xs before p
      → Recovered (xs ++ (sql, count) ∷ []) before (on_done p finish otherwise)
  on_done-Recovered sql count otherwise finish k (applied {w} asked serving) = k w asked serving

  fresh_session :
      (w : World S)
      → w.handle.in_transaction ≡ false
      → w.handle.dirty ≡ false
      → session_lost t target w ≡ (true, on_handle forget_session w)
  unfolding session_lost
  fresh_session w no_transaction clean = rw (no_transaction, clean)

  retry-Recovered :
      (sql : Bytes) (count : ℤ) (w : World S)
      → w.handle.in_transaction ≡ false
      → w.handle.dirty ≡ false
      → Serving w.server
      → Recovered
          (scope_statements w.handle.scope ++ (sql, count) ∷ [])
          w.sent
          (retry t target sql count w)
  unfolding retry apply_scope forget_session
  retry-Recovered sql count w no_transaction clean serving =
      rw (fresh_session w no_transaction clean) (
        on_done-Recovered {before = w.sent} sql count _ _
          (λ w' asked serving'.
            on_posted-Recovered sql _ _ asked
              (post-Served t target Serving serves sql count w' serving'))
          (scope_loop-Applied t target Serving serves w.handle.scope _ (on_handle forget_session w)
            serving))

  -- What the connection keeps of the answer that its session is gone, and what was asked for it.
  gone-Asked :
      (sql : Bytes) (count : ℤ) (w w' : World S)
      → post t target sql count w ≡ (gone, w')
      → (w'.handle ≡ w.handle) × Asked ((sql, count) ∷ []) w.sent w'.sent
  unfolding post
  gone-Asked sql count w w' e =
      let require_session = has_session w.handle && is_tracked w.handle.tracks_sessions in
      let same =
        (read_reply-gone t target sql count (has_session w.handle) require_session _ _ w' e).1 in
      (
        ap (λ v. v.handle) same,
        subst (λ (v : World S). Asked ((sql, count) ∷ []) w.sent v.sent) (sym same)
            (asked_next w.handle require_session asked_none),
      )

  attempt-retry :
      (sql : Bytes) (count : ℤ) (w w' : World S)
      → w.handle.scope_pending ≡ false
      → post t target sql count w ≡ (gone, w')
      → execute t target sql count w ≡ retry t target sql count w'
  unfolding execute attempt
  attempt-retry sql count w w' settled lost_session = rw (lost_session, settled)

  retried :
      {xs ys : List (Bytes × ℤ)} {before between : List Request} {r : Answer × World S}
      → Asked xs before between
      → Recovered ys between r
      → (answer : Json) × (r.0 ≡ some answer) × Asked (xs ++ ys) before r.1.sent
  retried asked (recovered {answer} more) = (answer, refl, Asked-trans asked more)

  -- A connection whose scope is on, and that holds no transaction and no context, does not notice
  -- that its session is gone, if the server then answers every request with success: `execute` gives
  -- an answer, and what it asks for is the statement, the scope's USE statements in their order, and
  -- the statement once more.
  pub execute-recovers :
      (sql : Bytes) (count : ℤ) (w w' : World S)
      → w.handle.scope_pending ≡ false
      → w.handle.in_transaction ≡ false
      → w.handle.dirty ≡ false
      → post t target sql count w ≡ (gone, w')
      → Serving w'.server
      → (answer : Json) × ((execute t target sql count w).0 ≡ some answer)
        × Asked
            (((sql, count) ∷ scope_statements w.handle.scope) ++ (sql, count) ∷ [])
            w.sent
            (execute t target sql count w).1.sent
  execute-recovers sql count w w' settled no_transaction clean lost_session serving =
      let (same, asked) = gone-Asked sql count w w' lost_session in
      subst
        (λ (r : Answer × World S).
          (answer : Json) × (r.0 ≡ some answer)
          × Asked (((sql, count) ∷ scope_statements w.handle.scope) ++ (sql, count) ∷ []) w.sent
              r.1.sent)
        (sym (attempt-retry sql count w w' settled lost_session))
        (retried asked (
          subst
            (λ (h : Handle).
              Recovered (scope_statements h.scope ++ (sql, count) ∷ []) w'.sent
                (retry t target sql count w'))
            same
            (retry-Recovered sql count w' (ap (λ h. h.in_transaction) same ∙ no_transaction)
              (ap (λ h. h.dirty) same ∙ clean) serving)))
