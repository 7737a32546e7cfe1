-- ===== src/Proxy/Transport/Bodies.antt =====
-- What the client reads through the transport of internal/proxy/http.go, and what is counted.
use mathlib.Core.List.{append_assoc, append-nil}
use tlspxy.Common.{
  ℕ, ◌+◌, ◌≡◌, refl, ap, sym, ◌∙◌, arith, Bool, true, false, ◌&&◌, List, [], ◌∷◌, ◌++◌, Option,
  none, some, length, take, drop, take-append-drop, length-append, if◌then◌else◌,
}
use tlspxy.Proxy.Counter.{u64}
use tlspxy.Proxy.Transport.{
  Transport, Body, read_sources, read_body, read_bodies, close_request, close_response,
  max_logged_bytes, logged_prefix, response_body, Exchange, send_request, round_trip,
}

abbrev is_none : {A : Type 0} → Option A → Bool
is_none none = true
is_none (some a) = false

-- The bytes that a body still holds.
abbrev pub all_bytes : List (List ℕ) → List ℕ
all_bytes [] = []
all_bytes (bytes ∷ sources) = bytes ++ all_bytes sources

read_sources_lem :
    (k : ℕ) (sources : List (List ℕ))
    → (read_sources k sources).0 ++ all_bytes (read_sources k sources).1 ≡ all_bytes sources
unfolding read_sources
read_sources_lem k [] = refl
read_sources_lem k ([] ∷ sources) = read_sources_lem k sources
read_sources_lem k ((b ∷ bytes) ∷ sources) =
    sym (append_assoc (take k (b ∷ bytes)) (drop k (b ∷ bytes)) (all_bytes sources))
    ∙ ap (λ t. t ++ all_bytes sources) (take-append-drop k (b ∷ bytes))

-- Reads give the bytes of a body in order, none twice, and count them all.
read_bodies_lem :
    (ks : List ℕ) (body : Body)
    → let r = read_bodies ks body in
      (r.0 ++ all_bytes r.1.sources ≡ all_bytes body.sources)
      × (r.1.bytes_read ≡ body.bytes_read + length r.0)
unfolding read_bodies read_body
read_bodies_lem [] body = (refl, omega arith)
read_bodies_lem (k ∷ ks) body =
    let got = read_body k body in
    let others = read_bodies ks got.1 in
    let rest = read_bodies_lem ks got.1 in
    (
      append_assoc got.0 others.0 (all_bytes others.1.sources)
          ∙ ap (λ t. got.0 ++ t) rest.0
          ∙ read_sources_lem k body.sources,
      omega (arith, rest.1, length-append got.0 others.0),
    )

-- The body of a response is the backend's, logged or not, and at most 64 KiB of it are logged.
response_body_lem :
    (show_content : Bool) (bytes : List ℕ)
    → (all_bytes (response_body show_content bytes).sources ≡ bytes)
      × ((response_body show_content bytes).bytes_read ≡ 0)
unfolding response_body logged_prefix
response_body_lem true bytes = (
  ap (λ t. take max_logged_bytes bytes ++ t) (append-nil (drop max_logged_bytes bytes))
      ∙ take-append-drop max_logged_bytes bytes,
  refl,
)
response_body_lem false bytes = (append-nil bytes, refl)

-- If the backend responds, the client that reads the body, in pieces of any sizes, gets a first
-- part of the backend's bytes, in order, whether contents are logged or not; when it closes the
-- body, exactly the length of these has been added to what was received, mod 2^64, and, where
-- metrics are enabled, to the metric, without the wrap.
pub round_trip-received :
    (x : Exchange) (request : Option (List ℕ)) (t : Transport) (bytes ks : List ℕ)
    → x.response ≡ some bytes
    → let r = round_trip x request t in
      (body : Body) × (left : List ℕ) × (r.1 ≡ some body)
      × ((read_bodies ks body).0 ++ left ≡ bytes)
      × ((close_response (read_bodies ks body).1 r.0).bytes_from
          ≡ u64 (t.bytes_from + length (read_bodies ks body).0))
      × ((close_response (read_bodies ks body).1 r.0).bytes_received ≡ (
          if t.metrics
          then t.bytes_received + length (read_bodies ks body).0
          else t.bytes_received))
unfolding round_trip send_request close_request close_response
round_trip-received x request t bytes ks responds =
    let logged = (send_request x request t).show_content in
    let body = response_body logged bytes in
    let same = response_body_lem logged bytes in
    let reads = read_bodies_lem ks body in
    (
      body,
      all_bytes (read_bodies ks body).1.sources,
      ground (arith, responds),
      reads.0 ∙ same.0,
      ground (arith, responds, reads.1, same.1),
      ground (arith, responds, reads.1, same.1),
    )

-- Where the backend's transport closes the body of a request, it has read a first part of it, in
-- order, and exactly its length is added to what was sent, mod 2^64; an error of the transport is
-- counted once where metrics are on.
pub round_trip-sent :
    (x : Exchange) (bytes : List ℕ) (t : Transport)
    → x.closes ≡ true
    → (sent : List ℕ) × (left : List ℕ) × (sent ++ left ≡ bytes)
      × ((round_trip x (some bytes) t).0.bytes_to ≡ u64 (t.bytes_to + length sent))
      × ((round_trip x (some bytes) t).0.bytes_sent
          ≡ (if t.metrics then t.bytes_sent + length sent else t.bytes_sent))
      × ((round_trip x (some bytes) t).0.errors
          ≡ (if t.metrics && is_none x.response then t.errors + 1 else t.errors))
unfolding round_trip send_request close_request
round_trip-sent x bytes t closes =
    let body : Body = record { sources = bytes ∷ []; bytes_read = 0 } in
    let reads = read_bodies_lem x.reads body in
    let r = read_bodies x.reads body in
    (
      r.0,
      all_bytes r.1.sources,
      reads.0 ∙ append-nil bytes,
      ground (arith, closes, reads.1),
      ground (arith, closes, reads.1),
      ground (arith, closes),
    )
