-- ===== src/Proxy/Transport.antt =====
-- internal/proxy/http.go: the transport of the HTTP proxy, which counts bodies as they are read. The
-- underlying RoundTripper is given by what it does: how it reads and closes the body of the request,
-- and the body of its response, or its error. An int64 counter is its bits, as a number
-- below 2^64; `errors`, `bytes_sent` and `bytes_received` are what has been added to ErrorsTotal,
-- BytesSentTotal and BytesReceivedTotal.
pub mod Bodies
use tlspxy.Common.{
  ℕ, zero, suc, ◌+◌, Bool, true, false, List, [], ◌∷◌, ◌++◌, Option, none, some, ◌==◌, length, take,
  drop, if◌then◌else◌,
}
use tlspxy.Proxy.Counter.{u64}

pub record Transport : Type 0 where
  pub bytes_to : ℕ
  pub bytes_from : ℕ
  pub show_content : Bool
  pub metrics : Bool
  pub errors : ℕ
  pub bytes_sent : ℕ
  pub bytes_received : ℕ

-- countingReadCloser over an io.MultiReader, or over one reader: what is left of each source.
pub record Body : Type 0 where
  pub sources : List (List ℕ)
  pub bytes_read : ℕ

-- A Read of at most k bytes: from the first source that is not at its end.
unfoldable pub read_sources : ℕ → List (List ℕ) → List ℕ × List (List ℕ)
read_sources k [] = ([], [])
read_sources k ([] ∷ sources) = read_sources k sources
read_sources k ((b ∷ bytes) ∷ sources) = (take k (b ∷ bytes), drop k (b ∷ bytes) ∷ sources)

-- countingReadCloser.Read.
unfoldable pub read_body : ℕ → Body → List ℕ × Body
read_body k body =
    let (bytes, left) = read_sources k body.sources in
    (bytes, record { sources = left; bytes_read = body.bytes_read + length bytes })

-- Reads of at most so many bytes, one after the other.
unfoldable pub read_bodies : List ℕ → Body → List ℕ × Body
read_bodies [] body = ([], body)
read_bodies (k ∷ ks) body =
    let first = read_body k body in
    let others = read_bodies ks first.1 in (first.0 ++ others.0, others.1)

-- countingReadCloser.Close, with the callback for the request, and with that for the response.
unfoldable pub close_request : Body → Transport → Transport
close_request body t = record t {
  bytes_to = u64 (t.bytes_to + body.bytes_read);
  bytes_sent = if t.metrics then t.bytes_sent + body.bytes_read else t.bytes_sent;
}

unfoldable pub close_response : Body → Transport → Transport
close_response body t = record t {
  bytes_from = u64 (t.bytes_from + body.bytes_read);
  bytes_received = if t.metrics then t.bytes_received + body.bytes_read else t.bytes_received;
}

-- InterruptHandler: what it logs as sent and as received.
unfoldable pub transport_interrupt_handler : Transport → ℕ × ℕ
transport_interrupt_handler t = (t.bytes_to, t.bytes_from)

abbrev pub max_logged_bytes : ℕ
max_logged_bytes = 65536

-- The part of a response that is read for the log.
unfoldable pub logged_prefix : List ℕ → List ℕ
logged_prefix bytes = take max_logged_bytes bytes

unfoldable pub response_body : Bool → List ℕ → Body
response_body show_content bytes =
    if show_content
    then record { sources = logged_prefix bytes ∷ drop max_logged_bytes bytes ∷ []; bytes_read = 0 }
    else record { sources = bytes ∷ []; bytes_read = 0 }

-- How the underlying RoundTripper reads the body of the request, whether it closes it, and what comes
-- back: `none` is its error.
pub record Exchange : Type 0 where
  pub reads : List ℕ
  pub closes : Bool
  pub response : Option (List ℕ)

-- The body of the request, `none` where there is none.
unfoldable pub send_request : Exchange → Option (List ℕ) → Transport → Transport
send_request x none t = t
send_request x (some bytes) t =
    let body = (read_bodies x.reads (record { sources = bytes ∷ []; bytes_read = 0 })).1 in
    if x.closes then close_request body t else t

-- RoundTrip.
unfoldable pub round_trip : Exchange → Option (List ℕ) → Transport → Transport × Option Body
round_trip x request t =
    let t' = send_request x request t in
    elim x.response [
      | none ↦ (record t' { errors = if t'.metrics then t'.errors + 1 else t'.errors }, none)
      | some bytes ↦ (t', some (response_body t'.show_content bytes))
    ]
