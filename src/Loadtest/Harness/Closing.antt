-- ===== src/Loadtest/Harness/Closing.antt =====
-- What NewHarness of internal/loadtest/harness.go starts, what Close ends, and what stays behind an error.
use mathlib.Core.Path.{subst}
use tlspxy.Common.{str_eq, true, ◌≡◌, inl, inr, refl, arith, List, [], ◌∷◌, none, some, Bool-cases}
use tlspxy.Tls.Host.{Host}
use tlspxy.Loadtest.Harness.{
  client_tls, HarnessConfig, Net, Life, unset, running, Goroutine, echo_loop, proxy_loop,
  backend_closer, serve_loop, TestHarness, After, empty_harness, build_client_tls_conf,
}
use tlspxy.Loadtest.Harness.Setup.{
  ◌>>>◌, set_client, setup, cancel_on_error, new_harness, close, ends,
}
use tlspxy.Loadtest.Harness.Wiring.{
  Waits, AllWait, IsWired, At, Reached, setup_tcp-Moves, setup_http-Moves, Reached-if,
  Reached-result, Reached-same,
}

module _ {C P : Type 0} where
  -- Every goroutine comes to its end.
  abbrev pub AllEnd : List Goroutine → TestHarness C P → Type 0
  AllEnd [] h = Unit
  AllEnd (g ∷ gs) h = (ends g h ≡ true) × AllEnd gs h

  Waits-ends : (g : Goroutine) (h : TestHarness C P) → Waits g h → ends g (close h) ≡ true
  unfolding ends close
  Waits-ends echo_loop h w = ground (arith, w)
  Waits-ends proxy_loop h w = ground (arith, w)
  Waits-ends backend_closer h w = refl
  Waits-ends serve_loop h w = ground (arith, w)

  AllWait-AllEnd : (gs : List Goroutine) (h : TestHarness C P) → AllWait gs h → AllEnd gs (close h)
  AllWait-AllEnd [] h w = tt
  AllWait-AllEnd (g ∷ gs) h w = (Waits-ends g h w.0, AllWait-AllEnd gs h w.1)

  Reached-IsWired : (b p : Life) (r : After C P) → Reached b p r → IsWired r.0
  Reached-IsWired b p (h, none) w = w.0
  Reached-IsWired b p (h, some e) w = w

  IsWired-then :
      (r : After C P) (f : TestHarness C P → After C P)
      → Reached unset unset r
      → ((h : TestHarness C P) → IsWired h → At unset unset h → IsWired (f h).0)
      → IsWired (r >>> f).0
  IsWired-then (h, none) f w k = k h w.0 w.1
  IsWired-then (h, some e) f w k = w

  not-cancelled : (r : After C P) (h : TestHarness C P) → cancel_on_error r ≡ (h, none) → r.0 ≡ h
  unfolding cancel_on_error
  not-cancelled (h', none) h e = ground (arith, e)
  not-cancelled (h', some x) h e = ground (arith, e)

module _ {C P : Type 0} (host : Host C P) (net : Net) (cfg : HarnessConfig) where
  set_client-Reached :
      (h : TestHarness C P)
      → IsWired h
      → At unset unset h
      → Reached unset unset (set_client host net cfg h)
  unfolding set_client
  set_client-Reached h w at =
      Reached-if unset unset cfg.server_tls _ _
        (Reached-result unset unset (build_client_tls_conf host net cfg)
          (λ e. (h, some (client_tls e))) (λ conf. (record h { client_tls_conf = some conf }, none))
          (λ e. w) (λ conf. Reached-same unset unset h _ refl refl refl refl w at))
        (w, at)

  setup-IsWired :
      (h : TestHarness C P) → IsWired h → At unset unset h → IsWired (setup host net cfg h).0
  unfolding setup
  setup-IsWired h w at = elim (Bool-cases (str_eq cfg.mode "tcp")) [
    | inl tcp ↦ rw tcp (Reached-IsWired running running _ (setup_tcp-Moves host net cfg h w at))
    | inr other ↦ elim (Bool-cases (str_eq cfg.mode "http")) [
      | inl http ↦
          rw (other, http) (Reached-IsWired unset running _ (setup_http-Moves host net cfg h w at))
      | inr neither ↦ rw (other, neither) w
    ]
  ]

  -- After NewHarness has returned without an error, Close ends every goroutine that it waits for.
  pub close-new_harness :
      (h : TestHarness C P) → new_harness host net cfg ≡ (h, none) → AllEnd h.wg (close h)
  unfolding new_harness
  close-new_harness h e =
      let made = set_client host net cfg empty_harness >>> setup host net cfg in
      let wired : IsWired made.0 =
        IsWired-then (set_client host net cfg empty_harness) (setup host net cfg)
          (set_client-Reached empty_harness (tt, refl) (refl, refl)) setup-IsWired in
      AllWait-AllEnd h.wg h (subst IsWired (not-cancelled made h e) wired).0
