-- ===== src/Loadtest/Harness/Wiring.antt =====
-- Each step of NewHarness of internal/loadtest/harness.go keeps every goroutine of it waiting for what is
-- there.
use mathlib.Core.Path.{subst}
use tlspxy.Common.{
  sym, Bool, true, false, ◌≡◌, inl, inr, refl, ◌∙◌, List, [], ◌∷◌, none, some, if◌then◌else◌,
  Option-cases,
}
use tlspxy.Common.Result.{Result, ok, err}
use tlspxy.Tls.Host.{Host}
use tlspxy.Tls.Server.{over_tls}
use tlspxy.Loadtest.Harness.{
  backend_tls, remote_tls, proxy_tls, HarnessConfig, Net, Life, unset, running, Goroutine,
  echo_loop, proxy_loop, backend_closer, serve_loop, TestHarness, After, build_backend_tls_conf,
  build_remote_tls_conf, wrap_with_server_tls,
}
use tlspxy.Loadtest.Harness.Setup.{
  ◌>>>◌, go, listen_backend, wrap_backend, listen_proxy, wrap_proxy, set_proxy_addr, set_remote,
  setup_tcp, start_http_backend, parse_backend_url, create_server, setup_http,
}

module _ {C P : Type 0} where
  -- What a goroutine waits for is running.
  abbrev pub Waits : Goroutine → TestHarness C P → Type 0
  Waits echo_loop h = h.backend_ln ≡ running
  Waits proxy_loop h = h.proxy_ln ≡ running
  Waits backend_closer h = h.context ≡ running
  Waits serve_loop h = h.proxy_ln ≡ running

  abbrev pub AllWait : List Goroutine → TestHarness C P → Type 0
  AllWait [] h = Unit
  AllWait (g ∷ gs) h = Waits g h × AllWait gs h

  -- A harness in which the goroutines wait for what is there, with a live context.
  abbrev pub IsWired : TestHarness C P → Type 0
  IsWired h = AllWait h.wg h × (h.context ≡ running)

  -- Where the two listeners are in their lives.
  abbrev pub At : Life → Life → TestHarness C P → Type 0
  At b p h = (h.backend_ln ≡ b) × (h.proxy_ln ≡ p)

  -- What holds after a step: the harness is wired, and without an error the listeners are at b and p.
  abbrev pub Reached : Life → Life → After C P → Type 0
  Reached b p (h, none) = IsWired h × At b p h
  Reached b p (h, some e) = IsWired h

  -- A step from one place to another.
  abbrev pub Moves : Life → Life → Life → Life → (TestHarness C P → After C P) → Type 0
  Moves b p b' p' f = (h : TestHarness C P) → IsWired h → At b p h → Reached b' p' (f h)

  pub then_Reached :
      {b p : Life} (b' p' : Life) (r : After C P) (f : TestHarness C P → After C P)
      → Reached b p r
      → Moves b p b' p' f
      → Reached b' p' (r >>> f)
  then_Reached b' p' (h, none) f w k = k h w.0 w.1
  then_Reached b' p' (h, some e) f w k = w

  pub Reached-if :
      (b p : Life) (test : Bool) (x y : After C P)
      → Reached b p x
      → Reached b p y
      → Reached b p (if test then x else y)
  Reached-if b p true x y hx hy = hx
  Reached-if b p false x y hx hy = hy

  pub Reached-result {ℓ κ} :
      {E : Type κ} {A : Type ℓ} (b p : Life) (r : Result E A) (f : E → After C P)
      (g : A → After C P)
      → ((e : E) → Reached b p (f e))
      → ((a : A) → Reached b p (g a))
      → Reached b p (elim r [ err e ↦ f e | ok a ↦ g a ])
  Reached-result b p (ok a) f g hf hg = hg a
  Reached-result b p (err e) f g hf hg = hf e

  -- More of the same life keeps every goroutine waiting.
  AllWait-of :
      (gs : List Goroutine) (h h' : TestHarness C P)
      → (h.backend_ln ≡ running → h'.backend_ln ≡ running)
      → (h.proxy_ln ≡ running → h'.proxy_ln ≡ running)
      → (h.context ≡ running → h'.context ≡ running)
      → AllWait gs h
      → AllWait gs h'
  AllWait-of [] h h' b p c w = tt
  AllWait-of (echo_loop ∷ gs) h h' b p c w = (b w.0, AllWait-of gs h h' b p c w.1)
  AllWait-of (proxy_loop ∷ gs) h h' b p c w = (p w.0, AllWait-of gs h h' b p c w.1)
  AllWait-of (backend_closer ∷ gs) h h' b p c w = (c w.0, AllWait-of gs h h' b p c w.1)
  AllWait-of (serve_loop ∷ gs) h h' b p c w = (p w.0, AllWait-of gs h h' b p c w.1)

module _ {C P : Type 0} where
  -- Where listeners and context stay the same.
  pub Reached-same :
      (b p : Life) (h h' : TestHarness C P)
      → h'.backend_ln ≡ h.backend_ln
      → h'.proxy_ln ≡ h.proxy_ln
      → h'.context ≡ h.context
      → h'.wg ≡ h.wg
      → IsWired h
      → At b p h
      → IsWired h' × At b p h'
  Reached-same b p h h' eb ep ec ew w at = (
    (
      subst (λ gs. AllWait gs h') (sym ew)
          (AllWait-of h.wg h h' (λ q. eb ∙ q) (λ q. ep ∙ q) (λ q. ec ∙ q) w.0),
      ec ∙ w.1,
    ),
    (eb ∙ at.0, ep ∙ at.1),
  )

  go-Moves :
      (b p : Life) (g : Goroutine)
      → ((h : TestHarness C P) → At b p h → h.context ≡ running → Waits g h)
      → Moves {C = C} {P = P} b p b p (go g)
  unfolding go
  go-Moves b p g waits h w at =
      let h' = record h { wg = g ∷ h.wg } in
      (((waits h' at w.1, AllWait-of h.wg h h' (λ q. q) (λ q. q) (λ q. q) w.0), w.1), at)

module _ {C P : Type 0} (host : Host C P) (net : Net) (cfg : HarnessConfig) where
  listen_backend-Moves : (p : Life) → Moves unset p running p (listen_backend host net cfg)
  unfolding listen_backend
  listen_backend-Moves p h w at = elim (Option-cases net.backend_addr) [
    | inl e ↦ rw e w
    | inr e ↦ rw e.1 (((AllWait-of h.wg h _ (λ _. refl) (λ q. q) (λ q. q) w.0, w.1), (refl, at.1)))
  ]

  listen_proxy-Moves : (b : Life) → Moves b unset b running (listen_proxy host net cfg)
  unfolding listen_proxy
  listen_proxy-Moves b h w at = elim (Option-cases net.proxy_addr) [
    | inl e ↦ rw e w
    | inr e ↦ rw e.1 (((AllWait-of h.wg h _ (λ q. q) (λ _. refl) (λ q. q) w.0, w.1), (at.0, refl)))
  ]

  wrap_backend-Moves : (b p : Life) → Moves b p b p (wrap_backend host net cfg)
  unfolding wrap_backend
  wrap_backend-Moves b p h w at =
      Reached-if b p cfg.remote_tls _ _
        (Reached-result b p (build_backend_tls_conf host net cfg) (λ e. (h, some (backend_tls e)))
          (λ conf. (record h { backend_conf = some conf }, none)) (λ e. w)
          (λ conf. Reached-same b p h _ refl refl refl refl w at))
        (w, at)

  wrap_proxy-Moves : (b p : Life) → Moves b p b p (wrap_proxy host net cfg)
  unfolding wrap_proxy
  wrap_proxy-Moves b p h w at =
      let wrapped = wrap_with_server_tls host net cfg in
      Reached-if b p cfg.server_tls _ _
        (Reached-result b p wrapped.1
          (λ e. (record h { cert_store = wrapped.0 }, some (proxy_tls e)))
          (λ conf. (record h { cert_store = wrapped.0; proxy_listener = over_tls conf }, none))
          (λ e.
            (Reached-same b p h (record h { cert_store = wrapped.0 }) refl refl refl refl w at).0)
          (λ conf. Reached-same b p h _ refl refl refl refl w at))
        (w, at)

  set_proxy_addr-Moves : (b p : Life) → Moves b p b p (set_proxy_addr host net cfg)
  unfolding set_proxy_addr
  set_proxy_addr-Moves b p h w at = elim (Option-cases net.proxy_addr) [
    | inl e ↦ rw e (w, at)
    | inr e ↦ rw e.1 (Reached-same b p h _ refl refl refl refl w at)
  ]

  set_remote-Moves : (b p : Life) → Moves b p b p (set_remote host net cfg)
  unfolding set_remote
  set_remote-Moves b p h w at =
      Reached-if b p cfg.remote_tls _ _
        (Reached-result b p (build_remote_tls_conf host net cfg) (λ e. (h, some (remote_tls e)))
          (λ conf. (record h { remote_tls_conf = some conf }, none)) (λ e. w)
          (λ conf. Reached-same b p h _ refl refl refl refl w at))
        (w, at)

  pub setup_tcp-Moves : Moves unset unset running running (setup_tcp host net cfg)
  unfolding setup_tcp
  setup_tcp-Moves h w at =
      then_Reached running running _ _
        (then_Reached running running _ _
          (then_Reached running running _ _
            (then_Reached running running _ _
              (then_Reached running running _ _
                (then_Reached running unset _ _
                  (then_Reached running unset _ _ (listen_backend-Moves unset h w at)
                    (wrap_backend-Moves running unset))
                  (go-Moves running unset echo_loop (λ h' at' c. at'.0)))
                (listen_proxy-Moves running))
              (wrap_proxy-Moves running running))
            (set_proxy_addr-Moves running running))
          (set_remote-Moves running running))
        (go-Moves running running proxy_loop (λ h' at' c. at'.1))

  start_http_backend-Moves : (b p : Life) → Moves b p b p (start_http_backend host net cfg)
  unfolding start_http_backend
  start_http_backend-Moves b p h w at = Reached-same b p h _ refl refl refl refl w at

  parse_backend_url-Moves : (b p : Life) → Moves b p b p (parse_backend_url host net cfg)
  unfolding parse_backend_url
  parse_backend_url-Moves b p h w at = Reached-if b p (net.parses net.backend_url) _ _ (w, at) w

  create_server-Moves : (b p : Life) → Moves b p b p (create_server host net cfg)
  unfolding create_server
  create_server-Moves b p h w at = Reached-same b p h _ refl refl refl refl w at

  pub setup_http-Moves : Moves unset unset unset running (setup_http host net cfg)
  unfolding setup_http
  setup_http-Moves h w at =
      then_Reached unset running _ _
        (then_Reached unset running _ _
          (then_Reached unset running _ _
            (then_Reached unset running _ _
              (then_Reached unset running _ _
                (then_Reached unset unset _ _
                  (then_Reached unset unset _ _ (start_http_backend-Moves unset unset h w at)
                    (go-Moves unset unset backend_closer (λ h' at' c. c)))
                  (parse_backend_url-Moves unset unset))
                (listen_proxy-Moves unset))
              (wrap_proxy-Moves unset running))
            (set_proxy_addr-Moves unset running))
          (create_server-Moves unset running))
        (go-Moves unset running serve_loop (λ h' at' c. at'.1))
