-- ===== src/Http/Client/Closes.antt =====
-- What a request leaves of its sockets, and that it comes to an end.
use frostlake_pdo.Http.Chunked.{Decoded, decode_chunked}
use frostlake_pdo.Http.Chunked.Bounds.{
  Bounded, bounded, bounded_malformed, bounded_overrun, decode_chunked-Bounded,
}
use frostlake_pdo.Http.Client.{
  after_sending, body_bytes, converse, http_request, read_raw, send_body,
}
use frostlake_pdo.Http.Network.{
  Network, Received, Sent, Sockets, all_sent, close_fd, connect_to, connected_socket, end_of_stream,
  limit_socket, port_text, read_all, received, recv_error, remove_fd, send_all, send_failed,
  send_loop, send_starved, try_addresses,
}
use frostlake_pdo.Http.Response.{
  Outcome, decoded_body, find_header, is_chunked, parse_head, parse_response, read_payload,
  split_head, still_reading,
}
use frostlake_pdo.Json.Text.{c_string}
use frostlake_pdo.Libc.{atoi}
use frostlake_pdo.Prelude.{
  Bool-cases, Bytes, List, Option, Option-cases, [], ap, arith, codes, drop, inl, inr, length, ltb,
  none, not, refl, some, subst, suc, true, zero, ℕ, ℤ, ◌++◌, ◌==◌, ◌||◌, ◌∙◌, ◌∷◌, ◌≡◌, ◌≢◌, ◌≤◌,
  ◌⊎◌,
}
use frostlake_pdo.Sql.Render.{taken}
use frostlake_pdo.Wire.Execute.Within.{branch}
use frostlake_pdo.Wire.Session.{starts_with}

-- The peer ends its answer, or fails, within so many rounds of `recv`.
pub data Ends {S A : Type 0} (net : Network S A) (fd : ℕ) : ℕ → S → Type 0 where
  ends_now :
      {n : ℕ} {system : S}
      → (net.recv_bytes system fd).0 ≡ end_of_stream
      → Ends net fd (suc n) system
  ends_failing :
      {n : ℕ} {system : S} → (net.recv_bytes system fd).0 ≡ recv_error → Ends net fd (suc n) system
  ends_later :
      {n : ℕ} {system : S} → Ends net fd n (net.recv_bytes system fd).1 → Ends net fd (suc n) system

-- An outcome that the source has, with the same descriptors open as before.
pub record Closed {S : Type 0} (before : List ℕ) (r : Outcome × Sockets S) : Type 0 where
  pub ended : r.0 ≢ still_reading
  pub same_fds : r.1.open_fds ≡ before

abbrev Held : {S : Type 0} → List ℕ → Option ℕ × Sockets S → Type 0
Held before (none, s) = s.open_fds ≡ before
Held before (some fd, s) = s.open_fds ≡ fd ∷ before

abbrev Connected : {S : Type 0} → List ℕ → (Bytes ⊎ ℕ) × Sockets S → Type 0
Connected before (inl message, s) = s.open_fds ≡ before
Connected before (inr fd, s) = s.open_fds ≡ fd ∷ before

resolved-cases :
    {A : Type 0} (r : Bytes ⊎ List A)
    → ((reason : Bytes) × (r ≡ inl reason)) ⊎ ((addresses : List A) × (r ≡ inr addresses))
resolved-cases (inl reason) = inl (reason, refl)
resolved-cases (inr addresses) = inr (addresses, refl)

same_fd : (fd : ℕ) → (fd == fd) ≡ true
same_fd fd = ground arith

remove_head : (fd : ℕ) (xs : List ℕ) → remove_fd fd (fd ∷ xs) ≡ xs
remove_head fd xs = rw (same_fd fd) refl

taken-cases : (o : Option ℕ) → ((o ≡ none) ⊎ (o ≡ some 0)) ⊎ ((n : ℕ) × (o ≡ some (suc n)))
taken-cases none = inl (inl refl)
taken-cases (some zero) = inl (inr refl)
taken-cases (some (suc n)) = inr (n, refl)

received-cases :
    (r : Received)
    → ((r ≡ recv_error) ⊎ (r ≡ end_of_stream))
      ⊎ ((c : ℕ) × (segment : Bytes) × (r ≡ received c segment))
received-cases recv_error = inl (inl refl)
received-cases end_of_stream = inl (inr refl)
received-cases (received c segment) = inr (c, segment, refl)

pub length-drop_le : (n : ℕ) (s : Bytes) → length (drop n s) ≤ length s
length-drop_le zero s = omega arith
length-drop_le (suc n) [] = omega arith
length-drop_le (suc n) (c ∷ s) = omega (arith, length-drop_le n s)

abbrev SentOn : {S : Type 0} → List ℕ → Sent × Sockets S → Type 0
SentOn before (sent, s) = (sent ≢ send_starved) × (s.open_fds ≡ before)

abbrev ReadOn : {S : Type 0} → List ℕ → Option (Option Bytes) × Sockets S → Type 0
ReadOn before (got, s) = (got ≢ none) × (s.open_fds ≡ before)

decoded_body-Said :
    (n : ℕ) (status : ℤ) (d : Decoded) → Bounded n d → decoded_body status d ≢ still_reading
decoded_body-Said n status d (bounded le) = λ e. cc
decoded_body-Said n status d bounded_malformed = λ e. cc
decoded_body-Said n status d bounded_overrun = λ e. cc

read_payload-Said :
    (status : ℤ) (headers payload : Bytes) → read_payload status headers payload ≢ still_reading
unfolding read_payload
read_payload-Said status headers payload =
    branch (λ (o : Outcome). o ≢ still_reading)
      (is_chunked (find_header headers (codes "Transfer-Encoding")))
      (decoded_body-Said (length payload) status (decode_chunked payload)
        (decode_chunked-Bounded payload))
      (λ e. cc)

parse_head-Said :
    (raw : Bytes) (found : Option (Bytes × Bytes)) → parse_head raw found ≢ still_reading
parse_head-Said raw none = λ e. cc
parse_head-Said raw (some (head, payload)) =
    read_payload-Said (atoi (drop 9 raw)) (c_string head) payload

parse_response-Said : (raw : Bytes) → parse_response raw ≢ still_reading
unfolding parse_response
parse_response-Said raw =
    branch (λ (o : Outcome). o ≢ still_reading)
      (not (starts_with (codes "HTTP/1.") raw) || ltb (length raw) 12) (λ e. cc)
      (parse_head-Said raw (split_head raw))

module _ {S A : Type 0} (net : Network S A) where
  close_head :
      (fd : ℕ) (before : List ℕ) (s : Sockets S)
      → s.open_fds ≡ fd ∷ before
      → (close_fd net fd s).open_fds ≡ before
  close_head fd before s e = ap (remove_fd fd) e ∙ remove_head fd before

  try_addresses-Held :
      (timeout : ℕ) (addresses : List A) (before : List ℕ) (s : Sockets S)
      → s.open_fds ≡ before
      → Held before (try_addresses net timeout addresses s)
  unfolding try_addresses
  try_addresses-Held timeout [] before s e = e
  try_addresses-Held timeout (address ∷ rest) before s e =
      let opening = net.open_socket s.system address in
      elim (Option-cases opening.0) [
        | inl no_socket ↦
            rw (no_socket, try_addresses)
              (try_addresses-Held timeout rest before (record s { system = opening.1 }) e)
        | inr (fd, found) ↦
            rw (found, try_addresses)
              (let attempt_made =
                  net.connect_socket (limit_socket net timeout fd opening.1) fd address in
                let tried : Sockets S = record s {
                  system = attempt_made.1;
                  open_fds = fd ∷ s.open_fds;
                } in
                let held : tried.open_fds ≡ fd ∷ before = ap (λ xs. fd ∷ xs) e in
                elim (Bool-cases attempt_made.0) [
                  | inl connected ↦ rw connected held
                  | inr other ↦ rw other (
                      try_addresses-Held timeout rest before (close_fd net fd tried)
                        (close_head fd before tried held))
                ])
      ]

  send_loop-SentOn :
      (fuel fd : ℕ) (data_bytes : Bytes) (s : Sockets S)
      → length data_bytes ≤ fuel
      → SentOn s.open_fds (send_loop net fuel fd data_bytes s)
  unfolding send_loop
  send_loop-SentOn fuel fd [] s h = (λ e. cc, refl)
  send_loop-SentOn zero fd (c ∷ rest) s h = absurd (omega arith)
  send_loop-SentOn (suc fuel) fd (c ∷ rest) s h =
      let sending = net.send_bytes s.system fd (c ∷ rest) in
      elim (taken-cases sending.0) [
        | inl (inl failing) ↦ rw (failing, send_loop) (λ e. cc, refl)
        | inl (inr nothing) ↦ rw (nothing, send_loop) (λ e. cc, refl)
        | inr (n, taken) ↦
            rw (taken, send_loop)
              (send_loop-SentOn fuel fd (drop n rest) (record s { system = sending.1 })
                (omega (arith, length-drop_le n rest)))
      ]

  send_all-SentOn :
      (fd : ℕ) (data_bytes : Bytes) (s : Sockets S)
      → SentOn s.open_fds (send_all net fd data_bytes s)
  unfolding send_all
  send_all-SentOn fd data_bytes s =
      send_loop-SentOn (length data_bytes) fd data_bytes s (omega arith)

  read_all-ReadOn :
      (fuel fd : ℕ) (sofar : Bytes) (s : Sockets S)
      → Ends net fd fuel s.system
      → ReadOn s.open_fds (read_all net fuel fd sofar s)
  unfolding read_all
  read_all-ReadOn zero fd sofar s x = elim x [ ]
  read_all-ReadOn (suc fuel) fd sofar s (ends_now e) = rw (e, read_all) (λ o. cc, refl)
  read_all-ReadOn (suc fuel) fd sofar s (ends_failing e) = rw (e, read_all) (λ o. cc, refl)
  read_all-ReadOn (suc fuel) fd sofar s (ends_later ends) =
      let got = net.recv_bytes s.system fd in
      elim (received-cases got.0) [
        | inl (inl failing) ↦ rw (failing, read_all) (λ o. cc, refl)
        | inl (inr over) ↦ rw (over, read_all) (λ o. cc, refl)
        | inr (c, segment, more) ↦
            rw (more, read_all)
              (read_all-ReadOn fuel fd (sofar ++ (c ∷ segment)) (record s { system = got.1 }) ends)
      ]

  connected_socket-Connected :
      (before : List ℕ) (r : Option ℕ × Sockets S)
      → Held before r
      → Connected before (connected_socket net r)
  connected_socket-Connected before (none, s) e = e
  connected_socket-Connected before (some fd, s) e = e

  connect_to-Connected :
      (host : Bytes) (port timeout : ℕ) (s : Sockets S)
      → Connected s.open_fds (connect_to net host port timeout s)
  unfolding connect_to
  connect_to-Connected host port timeout s =
      let resolving = net.resolve s.system host (port_text port) in
      elim (resolved-cases resolving.0) [
        | inl (reason, e) ↦ rw (e, connect_to) refl
        | inr (addresses, e) ↦
            rw (e, connect_to)
              (connected_socket-Connected s.open_fds _ (
                try_addresses-Held timeout addresses s.open_fds (record s { system = resolving.1 })
                  refl))
      ]

  read_raw-Closed :
      (fd : ℕ) (before : List ℕ) (r : Option (Option Bytes) × Sockets S)
      → ReadOn (fd ∷ before) r
      → Closed before (read_raw net fd r)
  read_raw-Closed fd before (none, s) h = absurd (h.0 refl)
  read_raw-Closed fd before (some none, s) h = record {
    ended = λ e. cc;
    same_fds = close_head fd before s h.1;
  }
  read_raw-Closed fd before (some (some raw), s) h = record {
    ended = parse_response-Said raw;
    same_fds = close_head fd before s h.1;
  }

module _ {S A : Type 0} (net : Network S A) (fuel : ℕ)
    (ends : (system : S) (fd : ℕ) → Ends net fd fuel system) where
  after_sending-Closed :
      (fd : ℕ) (before : List ℕ) (r : Sent × Sockets S)
      → SentOn (fd ∷ before) r
      → Closed before (after_sending net fuel fd r)
  after_sending-Closed fd before (all_sent, s) h =
      read_raw-Closed net fd before (read_all net fuel fd [] s) (
        subst (λ fds. ReadOn fds (read_all net fuel fd [] s)) h.1
          (read_all-ReadOn net fuel fd [] s (ends s.system fd)))
  after_sending-Closed fd before (send_failed, s) h = record {
    ended = λ e. cc;
    same_fds = close_head net fd before s h.1;
  }
  after_sending-Closed fd before (send_starved, s) h = absurd (h.0 refl)

  send_body-SentOn :
      (fd : ℕ) (body : Bytes) (before : List ℕ) (r : Sent × Sockets S)
      → SentOn before r
      → SentOn before (send_body net fd body r)
  send_body-SentOn fd body before (all_sent, s) h =
      branch (SentOn before) (ltb 0 (length body))
        (subst (λ fds. SentOn fds (send_all net fd body s)) h.1 (send_all-SentOn net fd body s)) h
  send_body-SentOn fd body before (send_failed, s) h = h
  send_body-SentOn fd body before (send_starved, s) h = h

  converse-Closed :
      (head body : Bytes) (before : List ℕ) (r : (Bytes ⊎ ℕ) × Sockets S)
      → Connected before r
      → Closed before (converse net fuel head body r)
  converse-Closed head body before (inl message, s) h = record { ended = λ e. cc; same_fds = h }
  converse-Closed head body before (inr fd, s) h = after_sending-Closed fd before _ (
      send_body-SentOn fd body (fd ∷ before) _
        (subst (λ fds. SentOn fds (send_all net fd head s)) h (send_all-SentOn net fd head s)))

  -- A request whose peer ends its answer, or fails, within the rounds given comes to an outcome:
  -- every loop ends. Whatever the outcome, the descriptors that are open then are those that were
  -- open before.
  pub http_request-Closed :
      (host : Bytes) (port : ℕ) (method path : Bytes) (body : Option Bytes) (timeout : ℕ)
      (s : Sockets S)
      → Closed s.open_fds (http_request net fuel host port method path body timeout s)
  unfolding http_request
  http_request-Closed host port method path body timeout s =
      converse-Closed _ (body_bytes body) s.open_fds (connect_to net host port timeout s)
        (connect_to-Connected net host port timeout s)
