-- ===== src/Wire/Delivered.antt =====
-- `post` of frostlake_wire.c over `fl_http_post`, `fl_http_get` and `fl_http_delete` of http.c.
use frostlake_pdo.Http.Client.{head_text, http_delete, http_get, http_post}
use frostlake_pdo.Http.Client.Exchange.{Delivers, http_request-delivered}
use frostlake_pdo.Http.Network.{Network, Sockets, connect_to}
use frostlake_pdo.Http.Response.{Outcome, replied}
use frostlake_pdo.Http.Response.Head.{Framing, IsHead, response_text}
use frostlake_pdo.Http.Response.Lines.{Field}
use frostlake_pdo.Json.Lookup.{get_bool}
use frostlake_pdo.Json.Reader.{parse}
use frostlake_pdo.Json.Text.{c_string}
use frostlake_pdo.Json.Value.{Json, Members, object}
use frostlake_pdo.Prelude.{
  Bool, Bytes, List, [], ap, codes, false, inr, length, parsed, pos, refl, some, suc, take, true, ℕ,
  ℤ, ◌&&◌, ◌++◌, ◌<◌, ◌^◌, ◌∷◌, ◌≡◌, ◌≤◌,
}
use frostlake_pdo.Wire.Request.{build_request}
use frostlake_pdo.Wire.Session.{has_session, is_tracked, post, read_answer, read_reply, response}
use frostlake_pdo.Wire.State.{
  Handle, Reply, Request, Target, Transport, World, answered, delete_at, get_from, post_to,
}

module _ {S A : Type 0} (net : Network S A) where
  -- The call of http.c that a request is, to the host and port of the handle.
  unfoldable pub call : ℕ → Bytes → ℕ → Request → Sockets S → Outcome × Sockets S
  unfolding http_post http_get http_delete
  call fuel host port (post_to path body timeout) s =
      http_post net fuel host port path body timeout s
  call fuel host port (get_from path timeout) s = http_get net fuel host port path timeout s
  call fuel host port (delete_at path timeout) s = http_delete net fuel host port path timeout s

  -- A transport that is these calls, wherever they come to an outcome that the source has.
  abbrev pub IsOver : ℕ → Bytes → ℕ → Transport (Sockets S) → Type 0
  IsOver fuel host port t =
      (request : Request) (reply : Reply) (s s' : Sockets S)
      → call fuel host port request s ≡ (replied reply, s')
      → t.exchange s request ≡ (reply, s')

with_rest : {X Y : Type 0} (r : X × Y) (x : X) → r.0 ≡ x → r ≡ (x, r.1)
with_rest r x e = ap (λ y. (y, r.1)) e

module _ {S : Type 0} (t : Transport S) (target : Target) where
  read_answer-response :
      (sent_id require_session : Bool) (status : ℤ) (answer : Json) (w : World S)
      → get_bool (some answer) (codes "success") false ≡ true
      → (read_answer t target sent_id require_session status answer w).0 ≡ response answer
  unfolding read_answer
  read_answer-response sent_id require_session status answer w success = rw success refl

  read_reply-response :
      (sent_id require_session : Bool) (status : ℤ) (content : Bytes) (ms : Members) (r : Reply)
      (w : World S)
      → r ≡ answered status content
      → parse (c_string content) ≡ parsed (object ms)
      → get_bool (some (object ms)) (codes "success") false ≡ true
      → (read_reply t target sent_id require_session r w).0 ≡ response (object ms)
  read_reply-response sent_id require_session status content ms r w same reads success =
      rw (same, reads) (read_answer-response sent_id require_session status (object ms) w success)

-- What `post` sends.
abbrev pub posted_body : Handle → Bytes → ℤ → Bytes
posted_body h sql count = build_request h sql count (has_session h && is_tracked h.tracks_sessions)

-- What the peer has of the connection, when it has the request whole.
abbrev pub posted_text : Handle → Bytes → ℤ → Bytes
posted_text h sql count =
    let body = posted_body h sql count in
    head_text (codes "POST") (codes "/api/execute") h.host h.port (length body) ++ body

module _ {S A : Type 0} (net : Network S A) (fd : ℕ) (heard : S → Bytes)
    (listens : (s : S) (c : ℕ) (rest : Bytes)
      → (n : ℕ) × ((net.send_bytes s fd (c ∷ rest)).0 ≡ some (suc n))
        × (heard (net.send_bytes s fd (c ∷ rest)).1 ≡ heard s ++ (c ∷ take n rest))) where
  -- `post` over a transport that is the calls of http.c, where the connection opens, its peer has
  -- heard nothing yet and takes a byte or more of whatever is sent: if the server, once it has exactly
  -- the statement's request, delivers a response in segments of any size and ends, and the response is
  -- framed by its length, in chunks or by its end and holds a JSON object that says success, then that
  -- object is what `post` returns. The port is of 16 bits, the request is shorter than 2^64 bytes.
  pub post-delivered :
      (fuel : ℕ) (t : Transport (Sockets S)) (target : Target) (sql : Bytes) (count : ℤ)
      (w : World (Sockets S)) (s' : Sockets S) (status : ℕ) (reason : Bytes) (fields : List Field)
      (payload content : Bytes) (ms : Members)
      → IsOver net fuel w.handle.host w.handle.port t
      → w.handle.port ≤ 65535
      → length (posted_body w.handle sql count) < 2 ^ 64
      → connect_to net w.handle.host w.handle.port w.handle.timeout w.server ≡ (inr fd, s')
      → heard s'.system ≡ []
      → IsHead status reason fields
      → Framing fields payload content
      → parse (c_string content) ≡ parsed (object ms)
      → get_bool (some (object ms)) (codes "success") false ≡ true
      → ((system : S)
          → heard system ≡ posted_text w.handle sql count
          → Delivers net fd fuel system (response_text status reason fields payload))
      → (post t target sql count w).0 ≡ response (object ms)
  unfolding post call http_post
  post-delivered fuel t target sql count w s' status reason fields payload content ms over hp hb
        connects silent is_head framing reads success answers =
      let h = w.handle in
      let body = posted_body h sql count in
      let request = post_to (codes "/api/execute") body h.timeout in
      let result = call net fuel h.host h.port request w.server in
      let came =
        http_request-delivered net fd heard listens fuel h.host h.port (codes "POST")
          (codes "/api/execute") (some body) h.timeout w.server s' status reason fields payload
          content hp hb connects silent is_head framing answers in
      read_reply-response t target (has_session h) (has_session h && is_tracked h.tracks_sessions)
        (pos status) content ms _ _
        (ap (λ r. r.0)
          (over request (answered (pos status) content) w.server result.1
            (with_rest result (replied (answered (pos status) content)) came)))
        reads success
