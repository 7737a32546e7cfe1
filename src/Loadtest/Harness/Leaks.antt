-- ===== src/Loadtest/Harness/Leaks.antt =====
-- What stays open behind an error of NewHarness in internal/loadtest/harness.go.
use mathlib.Core.Path.{subst}
use tlspxy.Common.{
  String, str_eq, Bool, true, false, [], ◌∷◌, if◌then◌else◌, ◌≡◌, refl, ap, sym, ◌∙◌, arith, none,
  some,
}
use tlspxy.Tls.Host.{Host}
use tlspxy.Loadtest.Harness.{
  HarnessConfig, HarnessError, backend_tls, Net, running, ended, echo_loop, proxy_loop, TestHarness,
  After, empty_harness, cancel,
}
use tlspxy.Loadtest.Harness.Setup.{
  ◌>>>◌, go, listen_backend, wrap_backend, listen_proxy, wrap_proxy, set_proxy_addr, set_remote,
  setup_tcp, set_client, setup, cancel_on_error, new_harness,
}

-- Whether the config of the backend could not be built.
abbrev pub is_backend_tls : HarnessError → Bool
is_backend_tls (backend_tls e) = true
is_backend_tls _ = false

module _ {C P : Type 0} where
  -- The backend's listener is open and its loop runs, from its start on.
  abbrev IsServed : After C P → Type 0
  IsServed r =
      (r.0.backend_ln ≡ running)
      × (r.0.wg ≡ (elim r.1 [
        | none ↦ echo_loop ∷ []
        | some e ↦ if is_backend_tls e then [] else echo_loop ∷ []
      ]))

  -- The backend's listener is open, and its loop has not started; the error, if any, is of its TLS.
  abbrev IsWrapped : After C P → Type 0
  IsWrapped r =
      (r.0.backend_ln ≡ running)
      × (r.0.wg ≡ [])
      × ((elim r.1 [ none ↦ true | some e ↦ is_backend_tls e ]) ≡ true)

  go-IsServed : (r : After C P) → IsWrapped r → IsServed (r >>> go echo_loop)
  unfolding go
  go-IsServed (h, none) (open_ln, fresh, known) = (open_ln, ap (λ wg. echo_loop ∷ wg) fresh)
  go-IsServed (h, some e) (open_ln, fresh, known) = (open_ln, rw known fresh)

  -- A step between the starts of the two loops.
  abbrev Keeps : (TestHarness C P → After C P) → Type 0
  Keeps f = (h : TestHarness C P) → IsServed (h, none) → IsServed (f h)

  then_IsServed :
      (r : After C P) (f : TestHarness C P → After C P) → IsServed r → Keeps f → IsServed (r >>> f)
  then_IsServed (h, none) f s k = k h s
  then_IsServed (h, some e) f s k = s

  then_from : (r : After C P) (f : TestHarness C P → After C P) → r.1 ≡ none → r >>> f ≡ f r.0
  then_from (h, none) f e = refl
  then_from (h, some x) f e = ground (arith, e)

  cancelled :
      (r : After C P) (h : TestHarness C P) (e : HarnessError)
      → cancel_on_error r ≡ (h, some e)
      → (h ≡ cancel r.0) × (r.1 ≡ some e)
  unfolding cancel_on_error
  cancelled (h', none) h e eq = ground (arith, eq)
  cancelled (h', some x) h e eq = ground (arith, eq)

  -- The start of the proxy's loop has no error.
  last_step :
      (r : After C P) (e : HarnessError)
      → IsServed r
      → (r >>> go proxy_loop).1 ≡ some e
      → IsServed (r >>> go proxy_loop)
  unfolding go
  last_step (h, none) e s failed = absurd (ground (arith, failed))
  last_step (h, some x) e s failed = s

module _ {C P : Type 0} (host : Host C P) (net : Net) (cfg : HarnessConfig) where
  listen_proxy-Keeps : Keeps (listen_proxy host net cfg)
  unfolding listen_proxy
  listen_proxy-Keeps h s = ground (arith, s)

  wrap_proxy-Keeps : Keeps (wrap_proxy host net cfg)
  unfolding wrap_proxy
  wrap_proxy-Keeps h s = ground (arith, s)

  set_proxy_addr-Keeps : Keeps (set_proxy_addr host net cfg)
  unfolding set_proxy_addr
  set_proxy_addr-Keeps h s = ground (arith, s)

  set_remote-Keeps : Keeps (set_remote host net cfg)
  unfolding set_remote
  set_remote-Keeps h s = ground (arith, s)

  wrap_backend-IsWrapped :
      (h : TestHarness C P)
      → h.backend_ln ≡ running
      → h.wg ≡ []
      → IsWrapped (wrap_backend host net cfg h)
  unfolding wrap_backend
  wrap_backend-IsWrapped h open_ln fresh = ground (arith, open_ln, fresh)

  -- Up to the start of the backend's loop.
  echo-IsServed :
      (h : TestHarness C P) (addr : String)
      → net.backend_addr ≡ some addr
      → h.wg ≡ []
      → IsServed (listen_backend host net cfg h >>> wrap_backend host net cfg >>> go echo_loop)
  unfolding listen_backend
  echo-IsServed h addr listens fresh =
      let listening : listen_backend host net cfg h ≡ (record h { backend_ln = running }, none) =
        ground (arith, listens) in
      subst (λ r. IsServed (r >>> wrap_backend host net cfg >>> go echo_loop)) (sym listening)
        (go-IsServed (wrap_backend host net cfg (record h { backend_ln = running }))
          (wrap_backend-IsWrapped (record h { backend_ln = running }) refl fresh))

  -- An error of setupTCP stands before the start of the proxy's loop.
  setup_tcp-IsServed :
      (h : TestHarness C P) (addr : String)
      → net.backend_addr ≡ some addr
      → h.wg ≡ []
      → (e : HarnessError) → (setup_tcp host net cfg h).1 ≡ some e
      → IsServed (setup_tcp host net cfg h)
  unfolding setup_tcp go
  setup_tcp-IsServed h addr listens fresh e failed =
      let r2 = listen_backend host net cfg h >>> wrap_backend host net cfg >>> go echo_loop in
      let r3 = r2 >>> listen_proxy host net cfg in
      let r4 = r3 >>> wrap_proxy host net cfg in
      let r5 = r4 >>> set_proxy_addr host net cfg in
      let r6 = r5 >>> set_remote host net cfg in
      let s2 = echo-IsServed h addr listens fresh in
      let s3 = then_IsServed r2 (listen_proxy host net cfg) s2 listen_proxy-Keeps in
      let s4 = then_IsServed r3 (wrap_proxy host net cfg) s3 wrap_proxy-Keeps in
      let s5 = then_IsServed r4 (set_proxy_addr host net cfg) s4 set_proxy_addr-Keeps in
      let s6 = then_IsServed r5 (set_remote host net cfg) s5 set_remote-Keeps in
      last_step r6 e s6 failed

  setup-tcp :
      (h : TestHarness C P)
      → str_eq cfg.mode "tcp" ≡ true
      → setup host net cfg h ≡ setup_tcp host net cfg h
  unfolding setup
  setup-tcp h tcp = ground (arith, tcp)

  wg-set_client : (set_client host net cfg empty_harness).0.wg ≡ []
  unfolding set_client
  wg-set_client = ground arith

  -- In TCP mode, once the client's TLS is set and the backend has its listener, an error of
  -- NewHarness leaves that listener open, with only the context ended, and the backend's accept
  -- loop as the one goroutine that was started; only where the TLS of the backend failed, it was
  -- not started.
  pub new_harness-leaks :
      (h : TestHarness C P) (e : HarnessError) (addr : String)
      → str_eq cfg.mode "tcp" ≡ true
      → net.backend_addr ≡ some addr
      → (set_client host net cfg empty_harness).1 ≡ none
      → new_harness host net cfg ≡ (h, some e)
      → (h.backend_ln ≡ running)
        × (h.wg ≡ (if is_backend_tls e then [] else echo_loop ∷ []))
        × (h.context ≡ ended)
  unfolding new_harness
  new_harness-leaks h e addr tcp listens client failed =
      let made = set_client host net cfg empty_harness >>> setup host net cfg in
      let h0 = (set_client host net cfg empty_harness).0 in
      let same =
        then_from (set_client host net cfg empty_harness) (setup host net cfg) client
        ∙ setup-tcp h0 tcp in
      let (h_eq, e_eq) = cancelled made h e failed in
      let tcp_failed : (setup_tcp host net cfg h0).1 ≡ some e = rw⁻¹ same e_eq in
      let served : IsServed made =
        rw same (setup_tcp-IsServed h0 addr listens wg-set_client e tcp_failed) in
      ground (arith, h_eq, e_eq, served)
