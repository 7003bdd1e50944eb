-- ===== src/Wire/Session.antt =====
-- The session protocol of frostlake_wire.c.
use frostlake_pdo.Json.Lookup.{get, get_bool, get_string}
use frostlake_pdo.Json.Reader.{parse}
use frostlake_pdo.Json.Text.{c_string}
use frostlake_pdo.Json.Value.{Json, bool, object}
use frostlake_pdo.Libc.{decimal}
use frostlake_pdo.Prelude.{
  Bool, Bytes, Option, Parsed, [], codes, false, if◌then◌else◌, is_int, negsuc, none, not, parsed,
  pos, some, take, true, ℤ, ◌&&◌, ◌++◌, ◌==◌, ◌||◌, ◌∷◌,
}
use frostlake_pdo.Wire.Request.{build_request}
use frostlake_pdo.Wire.State.{
  Handle, Reply, Target, Tracks, Transport, World, answered, error, on_handle, post_to, send,
  tracked, unreachable, unsettled, untracked,
}

-- `post`: a parsed answer, NULL with a failure recorded, or NULL with *gone set.
pub data Posted : Type 0 where
  response : Json → Posted
  failed gone : Posted

unfoldable pub starts_with : Bytes → Bytes → Bool
starts_with [] s = true
starts_with (c ∷ needle) [] = false
starts_with (c ∷ needle) (d ∷ s) = c == d && starts_with needle s

-- `strstr(s, needle) != NULL`
unfoldable pub contains_text : Bytes → Bytes → Bool
unfolding starts_with
contains_text needle [] = starts_with needle []
contains_text needle (c ∷ s) = starts_with needle (c ∷ s) || contains_text needle s

-- `PDO_FROSTLAKE_COUNT_UNSET`
abbrev pub count_unset : ℤ
count_unset = negsuc 0

abbrev pub is_tracked : Tracks → Bool
is_tracked tracked = true
is_tracked _ = false

-- `forget_session`
unfoldable pub forget_session : Handle → Handle
forget_session h = record h {
  session_id = none;
  dirty = false;
  in_transaction = false;
  scope_pending = true;
}

-- `started != NULL && started->kind == FL_JSON_BOOL`
abbrev pub is_bool_node : Option Json → Bool
is_bool_node (some (bool _)) = true
is_bool_node _ = false

-- Whether the engine tracks sessions, and whether it ran the statement in a fresh one.
unfoldable pub settle : Option Json → Bool → Handle → Handle
unfolding forget_session
settle answer sent_id h =
    if is_bool_node (get answer (codes "newSession"))
    then (let settled = record h { tracks_sessions = tracked } in
        if sent_id && get_bool answer (codes "newSession") false
        then forget_session settled
        else settled)
    else record h {
      tracks_sessions = elim h.tracks_sessions [
        | unsettled ↦ untracked
        | untracked ↦ untracked
        | tracked ↦ tracked
      ];
    }

-- `absorb`. To store the id that is there already changes nothing.
unfoldable pub absorb : Option Json → Bool → Handle → Handle
unfolding settle
absorb answer sent_id h = elim (get_string answer (codes "sessionId")) [
  | none ↦ h
  | some id ↦ record (settle answer sent_id h) { session_id = some id }
]

abbrev pub or_text : Option Bytes → Bytes → Bytes
or_text none default = default
or_text (some t) default = t

-- The message of a failed statement.
abbrev pub statement_error : Option Json → Bytes
statement_error answer = elim (get_string answer (codes "errorMessage")) [
  | some t ↦ t
  | none ↦ or_text (get_string answer (codes "error")) (codes "The statement failed")
]

abbrev pub is_none : Option Bytes → Bool
is_none none = true
is_none (some _) = false

-- "<host>:<port>"
abbrev pub server_name : Handle → Bytes
server_name h = h.host ++ (b':' ∷ decimal (pos h.port))

abbrev pub has_session : Handle → Bool
has_session h = not (is_none h.session_id)

module _ {S : Type 0} (t : Transport S) where
  -- `timed_out`
  unfoldable pub timed_out : Option Bytes → Bool
  unfolding contains_text
  timed_out none = false
  timed_out (some e) =
      contains_text (codes "cannot read response") e
      && (contains_text t.eagain_text e || contains_text t.etimedout_text e)

  -- The branch on `rc != 0`.
  unfoldable pub transport_failed : Target → Option Bytes → World S → World S
  transport_failed target e w =
      if timed_out e
      then error target (codes "HYT00")
          (codes "The Frostlake server at "
            ++ (server_name w.handle
                ++ (codes " did not answer within "
                    ++ (decimal (pos w.handle.timeout)
                        ++ (codes " second"
                            ++ (if w.handle.timeout == 1 then [] else codes "s"))))))
          w
      else error target (codes "08S01")
          (codes "Cannot reach the Frostlake server at "
            ++ (server_name w.handle ++ (codes ": " ++ or_text e (codes "transport failure"))))
          w

  abbrev pub unreadable : Target → ℤ → Bytes → World S → World S
  unreadable target status body w =
      error target (codes "08S01")
        (codes "Unreadable answer from the Frostlake server (HTTP "
          ++ (decimal status ++ (codes "): " ++ take 200 (c_string body))))
        w

  -- The branches on a readable answer.
  unfoldable pub read_answer : Target → Bool → Bool → ℤ → Json → World S → Posted × World S
  read_answer target sent_id require_session status answer w =
      let node = some answer in
      let absorbed = on_handle (absorb node sent_id) w in
      if not (get_bool node (codes "success") false)
      then (if is_int status 404 && require_session && is_none (get_string node (codes "sessionId"))
          then (gone, w)
          else (
            failed,
            error target
                (if is_int status 200 || is_int status 400 then codes "HY000" else codes "08S01")
                (statement_error node) absorbed,
          ))
      else (response answer, absorbed)

  abbrev pub read_body : Target → Bool → Bool → ℤ → Bytes → Parsed Json → World S → Posted × World S
  read_body target sent_id require_session status body (parsed (object ms)) w =
      read_answer target sent_id require_session status (object ms) w
  read_body target sent_id require_session status body _ w =
      (failed, unreadable target status body w)

  abbrev pub read_reply : Target → Bool → Bool → Reply → World S → Posted × World S
  read_reply target sent_id require_session (unreachable e) w =
      (failed, transport_failed target e w)
  read_reply target sent_id require_session (answered status body) w =
      read_body target sent_id require_session status body (parse (c_string body)) w

  -- `post`
  unfoldable pub post : Target → Bytes → ℤ → World S → Posted × World S
  post target sql count w =
      let h = w.handle in
      let sent_id = has_session h in
      let require_session = sent_id && is_tracked h.tracks_sessions in
      let request = build_request h sql count require_session in
      let (reply, w') = send t (post_to (codes "/api/execute") request h.timeout) w in
      read_reply target sent_id require_session reply w'
