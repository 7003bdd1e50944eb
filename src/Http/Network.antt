-- ===== src/Http/Network.antt =====
-- The sockets that http.c works on, and its loops over them.
use frostlake_pdo.Http.Response.{http_error}
use frostlake_pdo.Libc.{decimal}
use frostlake_pdo.Prelude.{
  Bool, Bytes, List, Option, [], codes, drop, false, if◌then◌else◌, inl, inr, length, ltb, none,
  pos, some, suc, true, zero, ℕ, ◌++◌, ◌==◌, ◌∷◌, ◌⊎◌,
}
use frostlake_pdo.Sql.Render.{taken}

-- What `recv` gives: an error, the end, or bytes.
pub data Received : Type 0 where
  recv_error end_of_stream : Received
  received : ℕ → Bytes → Received

-- The system behind http.c, whose state is `S` and whose addresses are `A`: what `getaddrinfo`,
-- `socket`, `connect`, `send`, `recv`, `close` and `strerror(errno)` do. A descriptor is a number;
-- `send` says how many bytes it took, or none for an error.
pub record Network (S A : Type 0) : Type 0 where
  pub resolve : S → Bytes → Bytes → (Bytes ⊎ List A) × S
  pub open_socket : S → A → Option ℕ × S
  pub set_timeout : S → ℕ → ℕ → S
  pub connect_socket : S → ℕ → A → Bool × S
  pub send_bytes : S → ℕ → Bytes → Option ℕ × S
  pub recv_bytes : S → ℕ → Received × S
  pub close_socket : S → ℕ → S
  pub error_text : S → Bytes

-- The system and the descriptors that this program has open, the latest first.
pub record Sockets (S : Type 0) : Type 0 where
  pub system : S
  pub open_fds : List ℕ

-- `send_all`: `send_starved` is not an outcome of the source.
pub data Sent : Type 0 where
  all_sent send_failed send_starved : Sent

abbrev pub remove_fd : ℕ → List ℕ → List ℕ
remove_fd fd [] = []
remove_fd fd (x ∷ xs) = let rest = x ∷ remove_fd fd xs in if x == fd then xs else rest

abbrev pub port_text : ℕ → Bytes
port_text port = decimal (pos port)

module _ {S : Type 0} where
  abbrev pub set_system : S → Sockets S → Sockets S
  set_system system s = record s { system = system }

module _ {S A : Type 0} (net : Network S A) where
  -- `close(fd)`
  abbrev pub close_fd : ℕ → Sockets S → Sockets S
  close_fd fd s = record {
    system = net.close_socket s.system fd;
    open_fds = remove_fd fd s.open_fds;
  }

  -- `setsockopt`, for a limit that is one.
  abbrev pub limit_socket : ℕ → ℕ → S → S
  limit_socket timeout fd system =
      if ltb 0 timeout then net.set_timeout system fd timeout else system

  -- The loop of `connect_to` over the addresses.
  unfoldable pub try_addresses : ℕ → List A → Sockets S → Option ℕ × Sockets S
  try_addresses timeout [] s = (none, s)
  try_addresses timeout (address ∷ rest) s =
      let (socket, system) = net.open_socket s.system address in
      elim socket [
        | none ↦ try_addresses timeout rest (set_system system s)
        | some fd ↦
            let (ok, system') = net.connect_socket (limit_socket timeout fd system) fd address in
            let s' = record s { system = system'; open_fds = fd ∷ s.open_fds } in
            elim ok [ true ↦ (some fd, s') | false ↦ try_addresses timeout rest (close_fd fd s') ]
      ]

  abbrev pub connected_socket : Option ℕ × Sockets S → (Bytes ⊎ ℕ) × Sockets S
  connected_socket (some fd, s) = (inr fd, s)
  connected_socket (none, s) =
      (inl (http_error (codes "cannot connect") (some (net.error_text s.system))), s)

  -- `connect_to`: the message, or the descriptor.
  unfoldable pub connect_to : Bytes → ℕ → ℕ → Sockets S → (Bytes ⊎ ℕ) × Sockets S
  unfolding try_addresses
  connect_to host port timeout s =
      let (found, system) = net.resolve s.system host (port_text port) in
      elim found [
        | inl reason ↦
            (inl (http_error (codes "cannot resolve host") (some reason)), set_system system s)
        | inr addresses ↦ connected_socket (try_addresses timeout addresses (set_system system s))
      ]

  -- The loop of `send_all` on the bytes that are left.
  unfoldable pub send_loop : ℕ → ℕ → Bytes → Sockets S → Sent × Sockets S
  send_loop fuel fd [] s = (all_sent, s)
  send_loop zero fd (c ∷ rest) s = (send_starved, s)
  send_loop (suc fuel) fd (c ∷ rest) s =
      let (taken, system) = net.send_bytes s.system fd (c ∷ rest) in
      elim taken [
        | none ↦ (send_failed, set_system system s)
        | some zero ↦ (send_failed, set_system system s)
        | some (suc n) ↦ send_loop fuel fd (drop n rest) (set_system system s)
      ]

  -- `send_all`. Every round takes a byte at least, so its fuel is enough.
  unfoldable pub send_all : ℕ → Bytes → Sockets S → Sent × Sockets S
  unfolding send_loop
  send_all fd data_bytes s = send_loop (length data_bytes) fd data_bytes s

  -- `read_all`, for a peer that takes at most `fuel` rounds: none where it takes more, and within it
  -- none for an error.
  unfoldable pub read_all : ℕ → ℕ → Bytes → Sockets S → Option (Option Bytes) × Sockets S
  read_all zero fd sofar s = (none, s)
  read_all (suc fuel) fd sofar s =
      let (got, system) = net.recv_bytes s.system fd in
      elim got [
        | recv_error ↦ (some none, set_system system s)
        | end_of_stream ↦ (some (some sofar), set_system system s)
        | received c segment ↦ read_all fuel fd (sofar ++ (c ∷ segment)) (set_system system s)
      ]
