-- ===== src/Tests/HttpRuns.antt =====
-- Runs of the HTTP client of src/http.c.
use frostlake_pdo.Http.Chunked.{
  after_crlf, chunk_loop, decode_chunked, decoded, overrun, step_chunk,
}
use frostlake_pdo.Http.Chunked.Outcomes.{ChunkOutcome, decode_chunked-ChunkOutcome}
use frostlake_pdo.Http.Chunked.RoundTrip.{
  Chunk, IsChunked, chunked_text, decode_chunked-chunked_text, payloads,
}
use frostlake_pdo.Http.Client.{http_request}
use frostlake_pdo.Http.Client.Closes.{Closed, Ends, ends_later, ends_now, http_request-Closed}
use frostlake_pdo.Http.Network.{Network, Sockets, end_of_stream, received}
use frostlake_pdo.Http.Response.{
  find_header, header_loop, parse_response, read_payload, replied, skip_blanks, split_head,
  split_line,
}
use frostlake_pdo.Http.Response.Head.{Framing, IsHead, by_length, response_text}
use frostlake_pdo.Http.Response.Lines.{Field}
use frostlake_pdo.Http.Response.RoundTrip.{parse_response-response_text}
use frostlake_pdo.Libc.{
  atoi, decimal_digits, decimal_nat, digits_value, hex_number, int_of_long, skip_spaces,
  starts_with_caseless, strtol, strtol_hex,
}
use frostlake_pdo.Prelude.{
  Bool, Bytes, List, [], arith, codes, false, if◌then◌else◌, inr, length, none, pos, refl, some,
  true, ℕ, ◌++◌, ◌∷◌, ◌≡◌,
}
use frostlake_pdo.Wire.Session.{starts_with}
use frostlake_pdo.Wire.State.{answered}

abbrev hello_chunk : Chunk
hello_chunk = record { size = codes "05"; extension = codes ";q=1"; payload = codes "hello" }

abbrev mark_chunk : Chunk
mark_chunk = record { size = codes "1"; extension = []; payload = codes "!" }

abbrev two_chunks : List Chunk
two_chunks = hello_chunk ∷ mark_chunk ∷ []

abbrev last_line : Bytes
last_line = codes "0\r\nExpires: 0\r\n\r\n"

two_chunks-IsChunked : IsChunked two_chunks last_line
unfolding hex_number
two_chunks-IsChunked = record {
  every = (
    record {
      digits = (refl, (refl, tt));
      extended = (refl, (refl, (refl, (refl, tt))));
      sized = refl;
      not_last = omega arith;
    },
    (record { digits = (refl, tt); extended = tt; sized = refl; not_last = omega arith }, tt),
  );
  ended = record {
    zeros = codes "0";
    ending_extension = [];
    trailer = codes "Expires: 0\r\n\r\n";
    ending_digits = (refl, tt);
    ending_extended = tt;
    zero_size = refl;
    written = refl;
  };
  addressable = omega arith;
}

decode_chunked-chunked_text_example :
    decode_chunked (chunked_text two_chunks last_line) ≡ decoded (payloads two_chunks)
decode_chunked-chunked_text_example =
    decode_chunked-chunked_text two_chunks last_line two_chunks-IsChunked

-- A whole chunk, and behind it a negative size.
abbrev chunk_and_minus : Bytes
chunk_and_minus = codes "5\r\nhello\r\n-2\r\nxy"

decode_chunked-ChunkOutcome_example :
    ChunkOutcome (length chunk_and_minus) chunk_and_minus (decode_chunked chunk_and_minus)
decode_chunked-ChunkOutcome_example = decode_chunked-ChunkOutcome chunk_and_minus (omega arith)

-- A negative size is not refused.
negative_size : decode_chunked (codes "-2\r\nhello\r\n") ≡ overrun
unfolding decode_chunked chunk_loop after_crlf strtol_hex skip_spaces hex_number step_chunk
negative_size = refl

response_bytes :
    parse_response (codes "HTTP/1.1 200 OK\r\ncontent-length:  2\r\nX: y\r\n\r\n{}  ")
    ≡ replied (answered (pos 200) (codes "{}"))
unfolding parse_response split_head read_payload find_header header_loop split_line
    starts_with_caseless starts_with skip_blanks strtol skip_spaces digits_value atoi int_of_long
response_bytes = refl

chunked_response :
    parse_response
      (codes "HTTP/1.1 404 No\r\nTransfer-Encoding: Chunked\r\n\r\n2\r\n{}\r\n0\r\n\r\n")
    ≡ replied (answered (pos 404) (codes "{}"))
unfolding parse_response split_head read_payload find_header header_loop split_line
    starts_with_caseless starts_with skip_blanks strtol skip_spaces digits_value atoi int_of_long
    decode_chunked chunk_loop after_crlf strtol_hex hex_number step_chunk
chunked_response = refl

-- A system with one address and one peer, which answers once and then ends; its state is whether it
-- still has to answer.
abbrev one_answer : Network Bool (Unit {0})
one_answer = record {
  resolve = λ s _ _. (inr (tt ∷ []), s);
  open_socket = λ s _. (some 7, s);
  set_timeout = λ s _ _. s;
  connect_socket = λ s _ _. (true, s);
  send_bytes = λ s _ data_bytes. (some (length data_bytes), s);
  recv_bytes = λ s _.
      if s then (received b'H' (codes "TTP/1.1 200 OK\r\n\r\n{}"), false) else (end_of_stream, s);
  close_socket = λ s _. s;
  error_text = λ _. codes "Connection refused";
}

one_answer-Ends : (system : Bool) (fd : ℕ) → Ends one_answer fd 2 system
one_answer-Ends true fd = ends_later (ends_now refl)
one_answer-Ends false fd = ends_now refl

abbrev three_open : Sockets Bool
three_open = record { system = true; open_fds = 2 ∷ 1 ∷ 0 ∷ [] }

http_request-Closed_example : Closed (2 ∷ 1 ∷ 0 ∷ []) (
    http_request one_answer 2
      (codes "localhost")
      18082
      (codes "GET")
      (codes "/api/health")
      none
      10
      three_open)
http_request-Closed_example =
    http_request-Closed one_answer 2 one_answer-Ends (codes "localhost") 18082 (codes "GET")
      (codes "/api/health") none 10 three_open

abbrev json_fields : List Field
json_fields =
    record { name = codes "Server"; value = codes "frostlake" }
    ∷ record { name = codes "content-length"; value = codes "2" }
    ∷ []

json-IsHead : IsHead 200 (codes "OK") json_fields
json-IsHead = record {
  status_fits = omega arith;
  reason_bytes = (refl, (refl, tt));
  every = (
    record {
      name_bytes = (refl, (refl, (refl, (refl, (refl, (refl, tt))))));
      valued = (refl, (refl, (refl, (refl, (refl, (refl, (refl, (refl, (refl, (refl, tt))))))))));
    },
    (
      record {
        name_bytes = (
          refl,
          (
            refl,
            (
              refl,
              (
                refl,
                (refl, (refl, (refl, (refl, (refl, (refl, (refl, (refl, (refl, (refl, tt)))))))))),
              ),
            ),
          ),
        );
        valued = (refl, (refl, tt));
      },
      tt,
    ),
  );
}

json-Framing : Framing json_fields (codes "{}" ++ codes "\r\n") (codes "{}")
unfolding decimal_nat decimal_digits
json-Framing = by_length (codes "{}") (codes "\r\n") refl refl (omega arith)

parse_response-response_text_example :
    parse_response (response_text 200 (codes "OK") json_fields (codes "{}" ++ codes "\r\n"))
    ≡ replied (answered (pos 200) (codes "{}"))
parse_response-response_text_example =
    parse_response-response_text 200 (codes "OK") json_fields (codes "{}" ++ codes "\r\n")
      (codes "{}") json-IsHead json-Framing
