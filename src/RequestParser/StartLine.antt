-- ===== src/RequestParser/StartLine.antt =====
-- requestParser.c: the functions of the start line. Each returns its result and the new state.
use http_proxy.Base.{
  ℕ, zero, suc, ◌+◌, Bool, true, false, not, ◌&&◌, ◌||◌, List, [], ◌∷◌, Bytes, codes, ltb, leb,
  ◌==◌, if◌then◌else◌, set, to_upper, to_lower,
}
use http_proxy.Buffer.{peek, write}
use http_proxy.ParserUtils.{
  Io, read_and_write, move_through_spaces, write_to_buf_reverse, write_prefix, unread_count,
  is_blank,
}
use http_proxy.ParserUtils.Formats.{match_format, check_crlf, pass_on}
use http_proxy.ParserUtils.Numbers.{get_number}
use http_proxy.RequestParser.{
  uri_host, relative_uri, HttpMethod, undefined_m, get, head, post, put, delete, connect, options,
  trace, HttpVersion, undefined, v_1_0, v_1_1, Request, host_max_size, set_empty, with_io, in_state,
}

unfoldable pub check_spaces : Request → Bool × Request
check_spaces q =
    let (c, inp') = move_through_spaces q.io.inp in
    let io' = record (q.io) { inp = inp' } in
    if c == 0
    then (false, with_io q (set_empty io'))
    else (true, with_io q (record io' { out = write io'.out b' ' }))

abbrev pub method_options : List (ℕ × Bytes × HttpMethod)
method_options =
    (b'C', codes "ONNECT", connect)
    ∷ (b'D', codes "ELETE", delete)
    ∷ (b'G', codes "ET", get)
    ∷ (b'H', codes "EAD", head)
    ∷ (b'O', codes "PTIONS", options)
    ∷ (b'P', codes "OST", post)
    ∷ (b'P', codes "UT", put)
    ∷ (b'T', codes "RACE", trace)
    ∷ []

-- One round of the loop over the options; true stands for `break`.
unfoldable pub try_method : ℕ → ℕ × Bytes × HttpMethod → Request → Bool × Request
try_method c (initial, rest, m) q =
    if initial == c
    then (let (found, io') = match_format rest (c ∷ []) q.io in
        if found
        then (true, record q { rd = record (q.rd) { method = m }; io = io' })
        else (io'.empty, with_io q io'))
    else (false, q)

unfoldable pub method_loop : ℕ → List (ℕ × Bytes × HttpMethod) → Request → Request
unfolding try_method
method_loop c [] q = q
method_loop c (o ∷ os) q =
    let rest = method_loop c os (try_method c o q).1 in
    if (try_method c o q).0 then (try_method c o q).1 else rest

abbrev pub is_supported : HttpMethod → Bool
is_supported get = true
is_supported head = true
is_supported post = true
is_supported undefined_m = false
is_supported put = false
is_supported delete = false
is_supported connect = false
is_supported options = false
is_supported trace = false

unfoldable pub extract_http_method : Request → Bool × Request
unfolding method_loop
extract_http_method q =
    let (b, io') = read_and_write q.io in
    let c = to_upper b in
    let q' = method_loop c method_options (with_io q io') in
    if c == 0 then (false, with_io q (set_empty io')) else (is_supported q'.rd.method, q')

-- The loop that passes over a relative URI; the first argument bounds the rounds.
unfoldable pub relative_loop : ℕ → Io → ℕ × Io
relative_loop zero io = (peek io.inp, io)
relative_loop (suc fuel) io =
    let rest = relative_loop fuel (pass_on io) in
    if not (peek io.inp == 0) && not (is_blank (peek io.inp)) then rest else (peek io.inp, io)

unfoldable pub clean_relative_uri : Request → Bool × Request
unfolding relative_loop
clean_relative_uri q =
    let (c, io') = relative_loop (unread_count q.io.inp) q.io in
    if c == 0 then (false, with_io q (set_empty io')) else (true, with_io q io')

abbrev pub is_host_char : ℕ → Bool
is_host_char c = (leb b'a' c && leb c b'z') || (leb b'0' c && leb c b'9') || c == b'-' || c == b'.'

-- What the loop over the bytes of a host leaves.
pub record HostRun : Type 0 where
  pub i : ℕ
  pub c : ℕ
  pub host : Bytes
  pub io : Io

-- The loops of `checkUriForHost` (`userinfo` is true: an `@` drops what was copied) and of
-- `extractHost`. The number behind it bounds the rounds.
unfoldable pub host_loop : Bool → ℕ → HostRun → HostRun
host_loop userinfo zero h = record h {
  c = if ltb h.i host_max_size then to_lower (peek h.io.inp) else h.c;
}
host_loop userinfo (suc fuel) h =
    let c = if ltb h.i host_max_size then to_lower (peek h.io.inp) else h.c in
    let rest = host_loop userinfo fuel (record {
      i = if is_host_char c then h.i + 1 else 0;
      c = c;
      host = if is_host_char c then set h.host h.i c else set h.host 0 0;
      io = pass_on h.io;
    }) in
    if ltb h.i host_max_size && not (c == 0) && (is_host_char c || (userinfo && c == b'@'))
    then rest
    else record h { c = c }

-- What both functions do behind the loop: the port, and putting the host back if the input gave
-- out. The first result says whether the input gave out, the second whether the port is valid.
unfoldable pub host_port : Request → HostRun → Bool × Bool × Request
host_port q h =
    let (valid, port', io') =
      if h.c == b':'
      then get_number q.rd.port (b':' ∷ []) (pass_on h.io)
      else (true, q.rd.port, h.io) in
    let rd' = record (q.rd) { host = h.host; port = port' } in
    if h.c == 0 || (not valid && io'.empty)
    then (
      true,
      valid,
      record {
        rd = rd';
        io = set_empty (record io' { inp = write_to_buf_reverse h.host io'.inp h.i });
      },
    )
    else (false, valid, record { rd = rd'; io = io' })

abbrev pub host_start : Request → HostRun
host_start q = record { i = 0; c = 0; host = q.rd.host; io = q.io }

unfoldable pub check_uri_for_host : Request → Bool × Request
unfolding host_loop host_port
check_uri_for_host q =
    let h = host_loop true (unread_count q.io.inp) (host_start q) in
    let (gone, valid, q') = host_port q h in (not gone && ltb h.i host_max_size && valid, q')

-- The end of `checkUri`, for a URI that is not absolute.
unfoldable pub relative_end : Request → Bool × Request
unfolding clean_relative_uri
relative_end q = (false, (clean_relative_uri (in_state relative_uri q)).1)

unfoldable pub check_uri : Request → Bool × Request
unfolding relative_end
check_uri q =
    let (http, io1) = match_format (codes "HTTP") [] q.io in
    let (slashes, io2) = match_format (codes "://") (codes "HTTP") io1 in
    let (found, q3) = check_uri_for_host (in_state uri_host (with_io q io2)) in
    if http
    then (if slashes
        then (if found then (true, q3) else if q3.io.empty then (false, q3) else relative_end q3)
        else if io2.empty
        then (false, with_io q io2)
        else relative_end (with_io q io2))
    else if io1.empty
    then (false, with_io q io1)
    else relative_end (with_io q io1)

abbrev pub http_1 : Bytes
http_1 = codes "HTTP/1."

abbrev pub version_of : ℕ → HttpVersion → HttpVersion
version_of c v = if c == b'0' then v_1_0 else if c == b'1' then v_1_1 else v

abbrev pub is_defined : HttpVersion → Bool
is_defined undefined = false
is_defined v_1_0 = true
is_defined v_1_1 = true

abbrev pub with_version : Request → HttpVersion → Io → Request
with_version q v io = record { rd = record (q.rd) { version = v }; io = io }

unfoldable pub extract_http_version : Request → Bool × Request
extract_http_version q =
    let (found, io1) = match_format http_1 [] q.io in
    let (c, io2) = read_and_write io1 in
    if found
    then (if c == 0
        then (false, with_io q (set_empty (record io2 { inp = write_prefix io2.inp http_1 })))
        else (
          is_defined (version_of c q.rd.version),
          with_version q (version_of c q.rd.version) io2,
        ))
    else if io1.empty
    then (false, with_io q io1)
    else (is_defined q.rd.version, with_io q io1)

unfoldable pub check_start_line_end : Request → Bool × Request
check_start_line_end q = let (found, io') = check_crlf [] q.io in (found, with_io q io')
