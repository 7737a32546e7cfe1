-- ===== src/Proxy/Start/Wire.antt =====
-- The bytes that Start of internal/proxy/tcp.go puts on the backend's connection.
use mathlib.Core.List.{append-nil}
use tlspxy.Common.{
  eq_iff, ℕ, ◌≡◌, arith, Bool, true, not, ◌||◌, List, [], ◌∷◌, ◌++◌, none, some, if◌then◌else◌,
  Bool-cases, inl, inr, refl, sym, ap, ◌∙◌, String, str_eq, length, ltb,
}
use tlspxy.Common.Result.{ok}
use tlspxy.Proxy.Header.{NetText, Addr, endpoint, proxy_header_v2}
use tlspxy.Proxy.Header.Text.{proxy_header}
use tlspxy.Proxy.Header.V2.{HasIp, decode_v2, told, decode_v2-proxy_header_v2}
use tlspxy.Proxy.Pipe.{PipeState, WriteResult, pipe}
use tlspxy.Proxy.Pipe.Delivery.{Delivers, read_bytes, pipe-Delivers}
use tlspxy.Proxy.Start.{
  TcpProxy, Network, StartState, or_timeout, note, enter, leave, send_header, write_header,
  run_pipes, watch_context, Ending, serve, dial_and_serve, handshake_and_serve, finish, start,
  dials, handshakes,
}

Delivers-along :
    {before before' after after' all : List ℕ}
    → before ≡ before'
    → after ≡ after'
    → Delivers before after all
    → Delivers before' after' all
Delivers-along b a d = record {
  taken = d.taken;
  left = d.left;
  added = sym a ∙ d.added ∙ ap (λ t. t ++ d.taken) b;
  split = d.split;
}

no_header :
    (net : NetText) (proto : String) (src dst : Addr) (header : List ℕ)
    → proto ≡ ""
    → proxy_header net proto src dst ≡ ok header
    → header ≡ []
unfolding proxy_header
no_header net proto src dst header blank built =
    let shown : proxy_header net "" src dst ≡ ok header =
      ap (λ t. proxy_header net t src dst) (sym blank) ∙ built in
    ground arith

write_header_lem :
    (header : List ℕ) (w : WriteResult) (s : StartState)
    → w.error ≡ none
    → ((write_header header w s).0.link.delivered ≡ s.link.delivered ++ header)
      × ((write_header header w s).1 ≡ true)
unfolding write_header
write_header_lem header w s written = rw written (refl, refl)

sends :
    (header : List ℕ) (w : WriteResult) (s : StartState)
    → w.error ≡ none
    → let r = if ltb 0 (length header) then write_header header w s else (s, true) in
      (r.0.link.delivered ≡ s.link.delivered ++ header) × (r.1 ≡ true)
sends [] w s written = (sym (append-nil s.link.delivered), refl)
sends (c ∷ header) w s written =
    let more : ltb 0 (length (c ∷ header)) ≡ true = ground arith in
    rw more (write_header_lem (c ∷ header) w s written)

module _ (net : NetText) (p : TcpProxy) (n : Network) where
  send_header_lem :
      {header : List ℕ} (s : StartState)
      → proxy_header net p.proxy_proto p.remote_addr p.local_addr ≡ ok header
      → n.header.error ≡ none
      → ((send_header net p n.header s).0.link.delivered ≡ s.link.delivered ++ header)
        × ((send_header net p n.header s).1 ≡ true)
  unfolding send_header
  send_header_lem {header} s built written = elim (Bool-cases (str_eq p.proxy_proto "")) [
    | inl blank ↦
        let empty =
          no_header net p.proxy_proto p.remote_addr p.local_addr header
            ((eq_iff p.proxy_proto "").0 blank) built in
        rw (blank, empty) (sym (append-nil s.link.delivered), refl)
    | inr other ↦ rw (other, built) (sends header n.header s written)
  ]

  delivered-serve :
      (s : StartState)
      → (send_header net p n.header s).1 ≡ true
      → (serve net p n s).0.link.delivered
        ≡ (pipe true n.forward (send_header net p n.header s).0.link).0.delivered
  unfolding serve note run_pipes watch_context
  delivered-serve s goes_on = ground (arith, goes_on)

  Delivers-serve :
      {header : List ℕ} (s : StartState)
      → proxy_header net p.proxy_proto p.remote_addr p.local_addr ≡ ok header
      → n.header.error ≡ none
      → Delivers
          (s.link.delivered ++ header)
          (serve net p n s).0.link.delivered
          (read_bytes n.forward)
  Delivers-serve {header} s built written =
      let sent = send_header_lem s built written in
      let moved = pipe-Delivers true n.forward (send_header net p n.header s).0.link in
      rw (delivered-serve s sent.1, sym sent.0) moved

  link-finish : (counted : Bool) (r : StartState × Ending) → (finish counted r).0.link ≡ r.0.link
  unfolding finish leave note
  link-finish counted r = ground arith

  start-serves :
      (s : StartState)
      → (not p.server_tls || n.handshake) ≡ true
      → n.dial ≡ none
      → (t : StartState) × (t.link ≡ s.link) × ((start net p n s).0.link ≡ (serve net p n t).0.link)
  unfolding start enter handshake_and_serve dial_and_serve finish leave note
  start-serves s passes dialled =
      let shaken = note (handshakes (or_timeout p.handshake_timeout 10000000000)) (enter s) in
      let before = if p.server_tls then shaken else enter s in
      let dialling = note (dials p.remote_tls (or_timeout p.dial_timeout 30000000000)) before in
      (
        dialling,
        ground arith,
        ground (arith, passes, dialled, link-finish s.link.metrics (serve net p n dialling)),
      )

  -- Once the client is let in and the backend is dialled, and the header is built and written without
  -- an error, the backend gets the header first, and then a first part of the client's bytes, in
  -- order, whatever the network does; with no PROXY protocol the header is empty.
  pub Delivers-start :
      (header : List ℕ) (s : StartState)
      → (not p.server_tls || n.handshake) ≡ true
      → n.dial ≡ none
      → proxy_header net p.proxy_proto p.remote_addr p.local_addr ≡ ok header
      → n.header.error ≡ none
      → Delivers
          (s.link.delivered ++ header)
          (start net p n s).0.link.delivered
          (read_bytes n.forward)
  Delivers-start header s passes dialled built written =
      let (t, same, served) = start-serves s passes dialled in
      let moved = Delivers-serve {header = header} t built written in
      Delivers-along (ap (λ (l : PipeState). l.delivered ++ header) same)
        (ap (λ (l : PipeState). l.delivered) (sym served)) moved

  -- With version 2, where the listener has no TLS or the client's handshake succeeds, the backend
  -- is dialled and the header is written without an error, on a fresh connection between addresses
  -- whose IPs, where known, have 4 or 16 bytes, a backend that reads the header learns these
  -- addresses, or that they are not told, and then gets a first part of the client's bytes, in
  -- order.
  pub decode_v2-start :
      (s : StartState)
      → s.link.delivered ≡ []
      → (not p.server_tls || n.handshake) ≡ true
      → n.dial ≡ none
      → n.header.error ≡ none
      → p.proxy_proto ≡ "v2"
      → HasIp (endpoint net p.remote_addr)
      → HasIp (endpoint net p.local_addr)
      → (sent : List ℕ) × (left : List ℕ) × (decode_v2 (start net p n s).0.link.delivered
          ≡ some (told (endpoint net p.remote_addr) (endpoint net p.local_addr), sent))
        × (sent ++ left ≡ read_bytes n.forward)
  unfolding proxy_header
  decode_v2-start s empty passes dialled written v2 ip ip' =
      let header = proxy_header_v2 net p.remote_addr p.local_addr in
      let built : proxy_header net p.proxy_proto p.remote_addr p.local_addr ≡ ok header =
        rw v2 refl in
      let moved = Delivers-start header s passes dialled built written in
      (
        moved.taken,
        moved.left,
        ap decode_v2 (moved.added ∙ ap (λ b. (b ++ header) ++ moved.taken) empty)
            ∙ decode_v2-proxy_header_v2 net p.remote_addr p.local_addr moved.taken ip ip',
        moved.split,
      )
