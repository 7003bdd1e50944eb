-- ===== src/Http/Client.antt =====
-- `http_request` of http.c and the three calls that the driver makes of it.
pub mod Closes
pub mod Head
pub mod Exchange
use frostlake_pdo.Http.Network.{
  Network, Sent, Sockets, all_sent, close_fd, connect_to, read_all, send_all, send_failed,
  send_starved,
}
use frostlake_pdo.Http.Response.{Outcome, parse_response, refuse, replied, still_reading}
use frostlake_pdo.Libc.{decimal}
use frostlake_pdo.Prelude.{
  Bytes, Option, [], codes, if◌then◌else◌, inl, inr, length, ltb, none, pos, some, take, ℕ, ◌++◌,
  ◌+◌, ◌-◌, ◌∷◌, ◌⊎◌,
}
use frostlake_pdo.Wire.State.{unreachable}

-- The request line and the headers, as the format has them.
abbrev pub head_text : Bytes → Bytes → Bytes → ℕ → ℕ → Bytes
head_text method path host port body_length =
    method
    ++ (b' '
        ∷ (path
            ++ (codes " HTTP/1.1\r\nHost: "
                ++ (host
                    ++ (b':'
                        ∷ (decimal (pos port)
                            ++ (codes "\r\nContent-Type: application/json\r\nContent-Length: "
                                ++ (decimal (pos body_length)
                                    ++ codes "\r\nConnection: close\r\n\r\n"))))))))

abbrev pub head_capacity : Bytes → Bytes → Bytes → ℕ
head_capacity method path host = length method + length path + length host + 256

-- What `snprintf` leaves in the buffer.
unfoldable pub head_of : Bytes → Bytes → Bytes → ℕ → ℕ → Bytes
head_of method path host port body_length =
    take (head_capacity method path host - 1) (head_text method path host port body_length)

abbrev pub body_bytes : Option Bytes → Bytes
body_bytes none = []
body_bytes (some body) = body

module _ {S A : Type 0} (net : Network S A) where
  abbrev pub failed_with : Bytes → Sockets S → Outcome × Sockets S
  failed_with what s = (refuse what (some (net.error_text s.system)), s)

  -- The two calls of `send_all`; an empty body is not sent.
  abbrev pub send_body : ℕ → Bytes → Sent × Sockets S → Sent × Sockets S
  send_body fd body (all_sent, s) =
      if ltb 0 (length body) then send_all net fd body s else (all_sent, s)
  send_body fd body (send_failed, s) = (send_failed, s)
  send_body fd body (send_starved, s) = (send_starved, s)

  -- What is made of the bytes read.
  abbrev pub read_raw : ℕ → Option (Option Bytes) × Sockets S → Outcome × Sockets S
  read_raw fd (none, s) = (still_reading, s)
  read_raw fd (some none, s) = failed_with (codes "cannot read response") (close_fd net fd s)
  read_raw fd (some (some raw), s) = (parse_response raw, close_fd net fd s)

  -- Once the request is sent.
  abbrev pub after_sending : ℕ → ℕ → Sent × Sockets S → Outcome × Sockets S
  after_sending fuel fd (all_sent, s) = read_raw fd (read_all net fuel fd [] s)
  after_sending fuel fd (send_failed, s) =
      failed_with (codes "cannot send request") (close_fd net fd s)
  after_sending fuel fd (send_starved, s) = (still_reading, s)

  -- Once the socket is connected.
  abbrev pub converse : ℕ → Bytes → Bytes → (Bytes ⊎ ℕ) × Sockets S → Outcome × Sockets S
  converse fuel head body (inl message, s) = (replied (unreachable (some message)), s)
  converse fuel head body (inr fd, s) =
      after_sending fuel fd (send_body fd body (send_all net fd head s))

  -- `http_request`, with a peer that takes at most `fuel` rounds to answer.
  unfoldable pub http_request :
      ℕ → Bytes → ℕ → Bytes → Bytes → Option Bytes → ℕ → Sockets S → Outcome × Sockets S
  unfolding connect_to head_of send_all read_all parse_response
  http_request fuel host port method path body timeout s =
      converse fuel (head_of method path host port (length (body_bytes body))) (body_bytes body)
        (connect_to net host port timeout s)

  -- `fl_http_post`
  unfoldable pub http_post : ℕ → Bytes → ℕ → Bytes → Bytes → ℕ → Sockets S → Outcome × Sockets S
  unfolding http_request
  http_post fuel host port path body timeout s =
      http_request fuel host port (codes "POST") path (some body) timeout s

  -- `fl_http_get`
  unfoldable pub http_get : ℕ → Bytes → ℕ → Bytes → ℕ → Sockets S → Outcome × Sockets S
  unfolding http_request
  http_get fuel host port path timeout s =
      http_request fuel host port (codes "GET") path none timeout s

  -- `fl_http_delete`
  unfoldable pub http_delete : ℕ → Bytes → ℕ → Bytes → ℕ → Sockets S → Outcome × Sockets S
  unfolding http_request
  http_delete fuel host port path timeout s =
      http_request fuel host port (codes "DELETE") path none timeout s
