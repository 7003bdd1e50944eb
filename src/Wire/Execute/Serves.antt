-- ===== src/Wire/Execute/Serves.antt =====
-- What the session protocol of frostlake_wire.c asks of a server that answers with success.
-- A reply that reads as an answer of success.
use frostlake_pdo.Json.Lookup.{get_bool}
use frostlake_pdo.Json.Reader.{parse}
use frostlake_pdo.Json.Text.{c_string}
use frostlake_pdo.Json.Value.{Json, Members, object}
use frostlake_pdo.Prelude.{
  Bool, Bytes, List, [], codes, false, parsed, some, true, ℤ, ◌&&◌, ◌++◌, ◌∷◌, ◌≡◌,
}
use frostlake_pdo.Wire.Execute.{on_posted, scope_loop}
use frostlake_pdo.Wire.Request.{build_request}
use frostlake_pdo.Wire.Session.{
  Posted, count_unset, has_session, is_tracked, post, read_answer, read_reply, response,
}
use frostlake_pdo.Wire.State.{
  Handle, Reply, Request, Target, Transport, World, answered, post_to, unreachable,
}

abbrev pub Succeeds : Reply → Type 0
Succeeds (unreachable e) = ⊥
Succeeds (answered status body) =
    (ms : Members) × (parse (c_string body) ≡ parsed (object ms))
    × (get_bool (some (object ms)) (codes "success") false ≡ true)

-- The requests for these statements with their counts, one after the other, each for some state of the
-- handle.
pub data Asked : List (Bytes × ℤ) → List Request → List Request → Type 0 where
  asked_none : {before : List Request} → Asked [] before before
  asked_next :
      {sql : Bytes} {count : ℤ} {rest : List (Bytes × ℤ)} {before after : List Request} (h : Handle)
      (require_session : Bool)
      → Asked rest
          (post_to (codes "/api/execute") (build_request h sql count require_session) h.timeout
            ∷ before)
          after
      → Asked ((sql, count) ∷ rest) before after

pub Asked-trans :
    {xs ys : List (Bytes × ℤ)} {before between after : List Request}
    → Asked xs before between
    → Asked ys between after
    → Asked (xs ++ ys) before after
Asked-trans asked_none k = k
Asked-trans (asked_next h require_session rest) k =
    asked_next h require_session (Asked-trans rest k)

-- The USE statements of a scope.
abbrev pub scope_statements : List (Bytes × Bool) → List (Bytes × ℤ)
scope_statements [] = []
scope_statements ((sql, required) ∷ rest) = (sql, count_unset) ∷ scope_statements rest

module _ {S : Type 0} (t : Transport S) (target : Target) (Serving : S → Type 0) where
  -- An answer, behind these statements, of a server that serves still.
  pub data Served (statements : List (Bytes × ℤ)) (before : List Request)
      : Posted × World S → Type 0 where
    served :
        {answer : Json} {w : World S}
        → Asked statements before w.sent
        → Serving w.server
        → Served statements before (response answer, w)

  read_answer-Served :
      {statements : List (Bytes × ℤ)} {before : List Request} (sent_id require_session : Bool)
      (status : ℤ) (answer : Json) (w : World S)
      → get_bool (some answer) (codes "success") false ≡ true
      → Asked statements before w.sent
      → Serving w.server
      → Served statements before (read_answer t target sent_id require_session status answer w)
  unfolding read_answer
  read_answer-Served sent_id require_session status answer w success asked serving =
      rw success (served asked serving)

  read_reply-Served :
      {statements : List (Bytes × ℤ)} {before : List Request} (sent_id require_session : Bool)
      (r : Reply) (w : World S)
      → Succeeds r
      → Asked statements before w.sent
      → Serving w.server
      → Served statements before (read_reply t target sent_id require_session r w)
  read_reply-Served sent_id require_session (unreachable e) w h asked serving = absurd h
  read_reply-Served sent_id require_session (answered status body) w (ms, reads, success) asked
        serving =
      rw reads
        (read_answer-Served sent_id require_session status (object ms) w success asked serving)

  module _
      (serves : (s : S) (r : Request)
        → Serving s
        → Succeeds (t.exchange s r).0 × Serving (t.exchange s r).1) where
    pub post-Served :
        (sql : Bytes) (count : ℤ) (w : World S)
        → Serving w.server
        → Served ((sql, count) ∷ []) w.sent (post t target sql count w)
    unfolding post
    post-Served sql count w serving =
        let require_session = has_session w.handle && is_tracked w.handle.tracks_sessions in
        let request =
          post_to (codes "/api/execute") (build_request w.handle sql count require_session)
            w.handle.timeout in
        let (succeeds, still) = serves w.server request serving in
        read_reply-Served (has_session w.handle) require_session _ _ succeeds
          (asked_next w.handle require_session asked_none) still

    -- A scope that has gone on.
    pub data Applied (statements : List (Bytes × ℤ)) (before : List Request)
        : Bool × World S → Type 0 where
      applied :
          {w : World S}
          → Asked statements before w.sent
          → Serving w.server
          → Applied statements before (true, w)

    Applied-behind :
        {xs ys : List (Bytes × ℤ)} {before between : List Request} {r : Bool × World S}
        → Asked xs before between
        → Applied ys between r
        → Applied (xs ++ ys) before r
    Applied-behind asked (applied more serving) = applied (Asked-trans asked more) serving

    on_posted-Applied :
        {xs ys : List (Bytes × ℤ)} {before : List Request} {p : Posted × World S}
        (answers : Json → World S → Bool × World S) (otherwise loses : World S → Bool × World S)
        → Served xs before p
        → ((answer : Json) (w : World S) → Serving w.server → Applied ys w.sent (answers answer w))
        → Applied (xs ++ ys) before (on_posted p answers otherwise loses)
    on_posted-Applied answers otherwise loses (served {answer} {w} asked serving) k =
        Applied-behind asked (k answer w serving)

    pub scope_loop-Applied :
        (entries : List (Bytes × Bool)) (restart : World S → Bool × World S) (w : World S)
        → Serving w.server
        → Applied (scope_statements entries) w.sent (scope_loop t target restart entries w)
    unfolding scope_loop
    scope_loop-Applied [] restart w serving = applied asked_none serving
    scope_loop-Applied ((sql, required) ∷ rest) restart w serving =
        on_posted-Applied _ _ _ (post-Served sql count_unset w serving)
          λ answer w' serving'. scope_loop-Applied rest restart w' serving'
