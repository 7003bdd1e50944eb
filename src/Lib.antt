-- ===== src/Lib.antt =====
-- Frostlake PDO driver: the JSON reader and writer, the SQL scanner with what rests on it, the session
-- protocol, the HTTP client, and the connection and statement objects of PDO.
--
-- The driver takes a statement from PDO, puts the bound values into its text, sends it in a JSON
-- request over HTTP, reads the JSON answer, and keeps track of the session that the server holds
-- for the connection. A byte is a number below 256, a text is a list of bytes, and locale-dependent
-- tests (`isalpha`, `toupper`) are those of the C locale.
--
-- Prelude, Libc: shared names, Boolean tests, results, integers, and the C library's functions.
-- Json: src/json.c and src/json.h. Value is `fl_json`; Text is `fl_strbuf_append_json_string`,
-- `append_utf8`, `parse_hex4` and `parse_string_body`; Reader is `skip_ws` to `fl_json_parse`;
-- Lookup is `fl_json_get` and its kind; Writer is `pdo_frostlake_append_json` of
-- src/frostlake_sql.c. Fits says which trees the reader can return. Buffer is the growable buffer with
-- `fl_strbuf_append_json_string`; elsewhere a buffer is the list of its bytes. Memory is `fl_json_free`
-- with the blocks of the nodes, Memory/Reader and Memory/Nested are the functions from
-- `node_add_child` to `fl_json_parse` once more, with every allocation and every block that they free.
-- Sql: src/frostlake_sql.c. Scan is `skip_non_placeholder` and `opens_named_parameter`; Literal is
-- `append_string_literal` and `append_binary_literal`; Numeric is `is_numeric_literal`; Identifier
-- is `pdo_frostlake_is_identifier`, and Session/Use has the USE statement of src/frostlake_driver.c;
-- Value is `append_value`; Render is `pdo_frostlake_render_statement`; Session is
-- `pdo_frostlake_track_session` and its helpers.
-- Wire: src/frostlake_wire.c, with `pdo_frostlake_error` of src/frostlake_driver.c in State.
-- Request is `build_request`; Session is `absorb` and `post`; Execute is `apply_scope`,
-- `session_lost`, `pdo_frostlake_execute`, `pdo_frostlake_session_alive`, `pdo_frostlake_healthy`
-- and `pdo_frostlake_release_session`. The state is the record `World`, passed from call to call.
-- Http: src/http.c. Chunked is `decode_chunked`; Response is `find_header` and `http_request` from the
-- status line on; Network is the sockets with `connect_to`, `send_all` and `read_all`; Client is
-- `http_request` and the three calls of it, and Wire/Delivered is a statement's way through all of them.
-- Driver: src/frostlake_driver.c. Dbh is the connection object with `free_handle` and the closer;
-- Calls is the methods of an open connection; Login is `use_object` and
-- `pdo_frostlake_handle_factory`; Steps is the calls of a connection one after the other.
-- Statement: src/frostlake_statement.c. Column is the sizes and type names of columns; Cursor is the
-- methods of the statement, its state the record `Statement`; View is a result as a list of result
-- sets with their rows; Outcome is what an execution leaves, and Cells what PHP has of a cell.
-- Tests: runs on concrete inputs.
--
-- Loops that do not follow the input byte by byte run on fuel. The reader has twice the length of
-- the input and one, since each value and each round of a loop reads a byte or more; the loop of a
-- string, the substitution, the tracking and the words of a statement have the length of their
-- text, since each round takes a byte or more; the digits of a number have one more than its value.
--
-- The loop of `read_all` reads for as long as the peer sends, so its fuel is an argument, the rounds of
-- `recv`; the loops of `send_all`, `find_header` and `decode_chunked` have the length of their text,
-- since each round takes a byte or more; the growable buffer doubles its capacity at most 64 times.
--
-- The reader with its memory runs on the fuel of the reader without.
--
-- Parameters: `grants` is the allocator of the C library, which grants a request by its number and
-- size or refuses it; an address is the number of its request. `Php` is what PHP does to a bound
-- value; `Transport` is the HTTP client with the server behind it and the C library's error texts, as
-- the session protocol uses them; `Network` is the system calls that the HTTP client makes;
-- `DataSource` is what PDO's parser finds in the data source.
--
-- Not modelled: memory outside json.c (the HTTP client, the session protocol and the objects of PDO
-- run as if every allocation were granted), and the registration of the extension in
-- src/pdo_frostlake.c.
pub mod Prelude
pub mod Libc
pub mod Json
pub mod Sql
pub mod Wire
pub mod Http
pub mod Driver
pub mod Statement
pub mod Tests
