-- ===== src/Http/Client/Exchange.antt =====
-- A request over a network that works: what the peer has of it, and what the driver has of the answer.
-- The peer sends these bytes in segments of any size and ends, within so many rounds of `recv`.
use frostlake_pdo.Http.Client.{
  after_sending, body_bytes, converse, head_of, head_text, http_request, read_raw, send_body,
}
use frostlake_pdo.Http.Client.Closes.{length-drop_le}
use frostlake_pdo.Http.Client.Head.{head_of-head_text}
use frostlake_pdo.Http.Network.{
  Network, Sent, Sockets, all_sent, connect_to, end_of_stream, read_all, received, send_all,
  send_failed, send_loop, send_starved,
}
use frostlake_pdo.Http.Response.{parse_response, replied}
use frostlake_pdo.Http.Response.Head.{Framing, IsHead, response_text}
use frostlake_pdo.Http.Response.Lines.{Field}
use frostlake_pdo.Http.Response.RoundTrip.{parse_response-response_text}
use frostlake_pdo.Prelude.{
  Bytes, List, Option, [], ap, append-nil, append_assoc, arith, drop, inr, length, ltb, none, pos,
  refl, some, subst, suc, sym, take, true, zero, ℕ, ◌++◌, ◌<◌, ◌^◌, ◌∙◌, ◌∷◌, ◌≡◌, ◌≤◌,
}
use frostlake_pdo.Wire.State.{answered}

pub data Delivers {S A : Type 0} (net : Network S A) (fd : ℕ) : ℕ → S → Bytes → Type 0 where
  delivers_end :
      {n : ℕ} {system : S}
      → (net.recv_bytes system fd).0 ≡ end_of_stream
      → Delivers net fd (suc n) system []
  delivers_segment :
      {n c : ℕ} {segment rest : Bytes} {system : S}
      → (net.recv_bytes system fd).0 ≡ received c segment
      → Delivers net fd n (net.recv_bytes system fd).1 rest
      → Delivers net fd (suc n) system ((c ∷ segment) ++ rest)

read_raw-parsed :
    {S A : Type 0} (net : Network S A) (fd : ℕ) (raw : Bytes)
    (r : Option (Option Bytes) × Sockets S)
    → r.0 ≡ some (some raw)
    → (read_raw net fd r).0 ≡ parse_response raw
read_raw-parsed net fd raw (none, s) e = cc
read_raw-parsed net fd raw (some none, s) e = cc
read_raw-parsed net fd raw (some (some got), s) e = ap parse_response cc

read_all-Delivers :
    {S A : Type 0} (net : Network S A) (fd fuel : ℕ) (sofar raw : Bytes) (s : Sockets S)
    → Delivers net fd fuel s.system raw
    → (read_all net fuel fd sofar s).0 ≡ some (some (sofar ++ raw))
unfolding read_all
read_all-Delivers net fd _ sofar _ s (delivers_end e) = rw (e, read_all) (rw append-nil refl)
read_all-Delivers net fd _ sofar _ s (delivers_segment {n} {c} {segment} {rest} e more) =
    rw (e, read_all)
      (read_all-Delivers net fd n (sofar ++ (c ∷ segment)) rest
          (record s { system = (net.recv_bytes s.system fd).1 }) more
        ∙ ap (λ t. some (some t)) (append_assoc sofar (c ∷ segment) rest))

take-drop : (n : ℕ) (s : Bytes) → take n s ++ drop n s ≡ s
take-drop zero s = refl
take-drop (suc n) [] = refl
take-drop (suc n) (c ∷ s) = ap (λ t. c ∷ t) (take-drop n s)

not_empty : (n : ℕ) → ltb 0 (suc n) ≡ true
not_empty n = ground arith

-- `heard` is what the peer has of a connection, which takes a byte or more of what is sent to it.
module _ {S A : Type 0} (net : Network S A) (fd : ℕ) (heard : S → Bytes)
    (listens : (s : S) (c : ℕ) (rest : Bytes)
      → (n : ℕ) × ((net.send_bytes s fd (c ∷ rest)).0 ≡ some (suc n))
        × (heard (net.send_bytes s fd (c ∷ rest)).1 ≡ heard s ++ (c ∷ take n rest))) where
  abbrev HasAll : Bytes → Sent × Sockets S → Type 0
  HasAll text (sent, s) = (sent ≡ all_sent) × (heard s.system ≡ text)

  send_loop-HasAll :
      (fuel : ℕ) (data_bytes : Bytes) (s : Sockets S)
      → length data_bytes ≤ fuel
      → HasAll (heard s.system ++ data_bytes) (send_loop net fuel fd data_bytes s)
  unfolding send_loop
  send_loop-HasAll fuel [] s h = (refl, sym (append-nil (heard s.system)))
  send_loop-HasAll zero (c ∷ rest) s h = absurd (omega arith)
  send_loop-HasAll (suc fuel) (c ∷ rest) s h =
      let (n, took, has) = listens s.system c rest in
      let s' : Sockets S = record s { system = (net.send_bytes s.system fd (c ∷ rest)).1 } in
      rw (took, send_loop)
        (subst (λ t. HasAll t (send_loop net fuel fd (drop n rest) s'))
          (ap (λ t. t ++ drop n rest) has
            ∙ append_assoc (heard s.system) (c ∷ take n rest) (drop n rest)
            ∙ ap (λ t. heard s.system ++ (c ∷ t)) (take-drop n rest))
          (send_loop-HasAll fuel (drop n rest) s' (omega (arith, length-drop_le n rest))))

  send_all-HasAll :
      (data_bytes : Bytes) (s : Sockets S)
      → HasAll (heard s.system ++ data_bytes) (send_all net fd data_bytes s)
  unfolding send_all
  send_all-HasAll data_bytes s = send_loop-HasAll (length data_bytes) data_bytes s (omega arith)

  send_body-HasAll :
      (body head : Bytes) (r : Sent × Sockets S)
      → HasAll head r
      → HasAll (head ++ body) (send_body net fd body r)
  send_body-HasAll [] head (all_sent, s) (e, h) = (refl, h ∙ sym (append-nil head))
  send_body-HasAll (c ∷ body) head (all_sent, s) (e, h) = rw (not_empty (length body)) (
      subst (λ t. HasAll (t ++ (c ∷ body)) (send_all net fd (c ∷ body) s)) h
        (send_all-HasAll (c ∷ body) s))
  send_body-HasAll body head (send_failed, s) (e, h) = cc
  send_body-HasAll body head (send_starved, s) (e, h) = cc

  after_sending-parsed :
      (fuel : ℕ) (request raw : Bytes) (r : Sent × Sockets S)
      → HasAll request r
      → ((s : Sockets S) → heard s.system ≡ request → Delivers net fd fuel s.system raw)
      → (after_sending net fuel fd r).0 ≡ parse_response raw
  after_sending-parsed fuel request raw (all_sent, s) (e, h) answers =
      read_raw-parsed net fd raw _ (read_all-Delivers net fd fuel [] raw s (answers s h))
  after_sending-parsed fuel request raw (send_failed, s) (e, h) answers = cc
  after_sending-parsed fuel request raw (send_starved, s) (e, h) answers = cc

  -- Over a connection that opens, whose peer has heard nothing yet and takes a byte or more of whatever
  -- is sent: if the peer, once
  -- it has exactly the head that the format has and the body behind it, delivers a response in segments
  -- of any size and ends, the outcome is the status of the response and its body. The port is of 16
  -- bits, the body's length of 64.
  pub http_request-delivered :
      (fuel : ℕ) (host : Bytes) (port : ℕ) (method path : Bytes) (body : Option Bytes) (timeout : ℕ)
      (s s' : Sockets S) (status : ℕ) (reason : Bytes) (fields : List Field)
      (payload content : Bytes)
      → port ≤ 65535
      → length (body_bytes body) < 2 ^ 64
      → connect_to net host port timeout s ≡ (inr fd, s')
      → heard s'.system ≡ []
      → IsHead status reason fields
      → Framing fields payload content
      → ((system : S)
          → heard system
            ≡ head_text method path host port (length (body_bytes body)) ++ body_bytes body
          → Delivers net fd fuel system (response_text status reason fields payload))
      → (http_request net fuel host port method path body timeout s).0
        ≡ replied (answered (pos status) content)
  unfolding http_request
  http_request-delivered fuel host port method path body timeout s s' status reason fields payload
        content hp hb is_open silent is_head framing answers =
      let head = head_text method path host port (length (body_bytes body)) in
      let printed = head_of-head_text method path host port (length (body_bytes body)) hp hb in
      let sent = send_body-HasAll (body_bytes body) head (send_all net fd head s') (
        subst (λ t. HasAll t (send_all net fd head s')) (ap (λ t. t ++ head) silent)
          (send_all-HasAll head s')) in
      ap
        (λ r.
          (converse net fuel (head_of method path host port (length (body_bytes body)))
            (body_bytes body) r).0)
        is_open
      ∙ ap
          (λ h.
            (after_sending net fuel fd
              (send_body net fd (body_bytes body) (send_all net fd h s'))).0)
          printed
      ∙ after_sending-parsed fuel (head ++ body_bytes body)
          (response_text status reason fields payload) _ sent (λ v has. answers v.system has)
      ∙ parse_response-response_text status reason fields payload content is_head framing
