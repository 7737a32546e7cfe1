-- ===== src/Proxy/Start/Operations/Order.antt =====
-- Connections of internal/proxy/tcp.go run at the same time: whatever the order of their operations,
-- they leave what they share as if each Start ran after the one before.
use tlspxy.Common.{
  ◌≡◌, refl, ap, ◌∙◌, arith, str_eq, true, false, ◌||◌, List, [], ◌∷◌, ◌++◌, ltb, take, map,
  Bool-cases, Option-cases, inl, inr,
}
use tlspxy.Common.Result.{Result-cases}
use tlspxy.Common.Merges.{Merge, stop, left, right, run_all, Commutes}
use tlspxy.Proxy.Counter.{add_to, add_from}
use tlspxy.Proxy.Gauge.{dec-inc, inc-dec}
use tlspxy.Proxy.Header.{NetText}
use tlspxy.Proxy.Header.Text.{proxy_header}
use tlspxy.Proxy.Pipe.{other, WriteResult, PipeState, signal, meter}
use tlspxy.Proxy.Pipe.Operations.{SharedOp, run_shared_op, report_ops, pipe_ops}
use tlspxy.Proxy.Pipe.Operations.Order.{
  with_delivered, report-report_ops, run_all-with_delivered, run_all-pipes,
}
use tlspxy.Proxy.Pipe.Teardown.{SignalsOnce}
use tlspxy.Proxy.Start.{
  TcpProxy, Network, StartState, opened, finished, note, send_header, write_header, run_pipes,
  watch_context, Ending, serve,
}
use tlspxy.Proxy.Start.Gate.{is_finished, Framed-send_header, Framed-run_pipes}
use tlspxy.Proxy.Start.Operations.{
  shared_of, shares, run_conn_op, header_ops, has_signal, select_ends,
}

pub run_conn_op_comm : Commutes run_conn_op
unfolding run_conn_op add_to add_from
run_conn_op_comm a b sh = ground (arith, dec-inc sh.active, inc-dec sh.active)

run_conn_op-shares :
    (a : SharedOp) (s : StartState)
    → run_conn_op (shares a) (shared_of s) ≡ shared_of (record s { link = run_shared_op a s.link })
unfolding run_conn_op run_shared_op signal meter
run_conn_op-shares a s = ground arith

abbrev with_link : PipeState → StartState → StartState
with_link l s = record s { link = l }

pub run_all-shares :
    (ops : List SharedOp) (s : StartState)
    → run_all run_conn_op (map shares ops) (shared_of s)
      ≡ shared_of (with_link (run_all run_shared_op ops s.link) s)
run_all-shares [] s = refl
run_all-shares (a ∷ ops) s =
    ap (run_all run_conn_op (map shares ops)) (run_conn_op-shares a s)
    ∙ run_all-shares ops (with_link (run_shared_op a s.link) s)

closed_once-run_all :
    (ops : List SharedOp) (st : PipeState)
    → (run_all run_shared_op ops st).closed_once ≡ (st.closed_once || has_signal ops)
unfolding run_shared_op signal meter
closed_once-run_all [] st = ground arith
closed_once-run_all (a ∷ ops) st = ground (arith, closed_once-run_all ops (run_shared_op a st))

SignalsOnce-run_all :
    (ops : List SharedOp) (st : PipeState)
    → SignalsOnce st
    → SignalsOnce (run_all run_shared_op ops st)
unfolding run_shared_op signal meter
SignalsOnce-run_all [] st h = h
SignalsOnce-run_all (a ∷ ops) st h = SignalsOnce-run_all ops (run_shared_op a st) (ground arith)

has_signal-Merge :
    {xs ys zs : List SharedOp} → Merge xs ys zs → has_signal zs ≡ (has_signal xs || has_signal ys)
has_signal-Merge stop = refl
has_signal-Merge (left m) = ground (arith, has_signal-Merge m)
has_signal-Merge (right m) = ground (arith, has_signal-Merge m)

-- A connection whose ErrorSignal has not been sent to.
abbrev pub IsUnsignalled : PipeState → Type 0
IsUnsignalled st = (st.closed_once ≡ false) × (st.signals ≡ 0)

module _ (net : NetText) (p : TcpProxy) where
  send_header-header_ops :
      (w : WriteResult) (s : StartState)
      → let r = send_header net p w s in
        let ops = header_ops net p w in
        (r.1 ≡ ops.1)
        × (r.0
            ≡ with_link (with_delivered r.0.link.delivered (run_all run_shared_op ops.0 s.link)) s)
        × (ops.1 ≡ true → ops.0 ≡ [])
  unfolding send_header header_ops write_header
  send_header-header_ops w s = elim (Bool-cases (str_eq p.proxy_proto "")) [
    | inl blank ↦ ground (arith, blank)
    | inr other_text ↦
        elim (Result-cases (proxy_header net p.proxy_proto p.remote_addr p.local_addr)) [
          | inr (e, failed) ↦ ground (arith, other_text, failed, report-report_ops other s.link)
          | inl (header, built) ↦ elim (Option-cases w.error) [
            | inl fine ↦ ground (arith, other_text, built, fine)
            | inr (e, failed) ↦
                let wrote = with_delivered (s.link.delivered ++ take w.room header) s.link in
                ground (
                  arith,
                  other_text,
                  built,
                  failed,
                  report-report_ops e wrote,
                  run_all-with_delivered (report_ops e) wrote.delivered s.link,
                )
          ]
        ]
  ]

  module _ (n : Network) where
    run_pipes-run_all :
        {ops : List SharedOp} (t : StartState)
        → Merge (pipe_ops true n.forward) (pipe_ops false n.backward) ops
        → (run_pipes n t).link
          ≡ with_delivered (run_pipes n t).link.delivered (run_all run_shared_op ops t.link)
    unfolding run_pipes
    run_pipes-run_all t m =
        ap (with_delivered (run_pipes n t).link.delivered)
          (run_all-pipes n.forward n.backward t.received t.link m)

    -- The select of Start, after the operations of the pipes.
    signals-run_all :
        {ops : List SharedOp} (st : PipeState)
        → Merge (pipe_ops true n.forward) (pipe_ops false n.backward) ops
        → IsUnsignalled st
        → (n.cancelled || ltb 0 (run_all run_shared_op ops st).signals) ≡ select_ends n
    signals-run_all {ops} st m fresh = ground (
      arith,
      closed_once-run_all ops st,
      SignalsOnce-run_all ops st (ground arith),
      has_signal-Merge m,
    )

    abbrev pub Quits : StartState → List SharedOp → StartState × Ending → Type 0
    Quits s ops r =
        (shared_of r.0 ≡ run_all run_conn_op (map shares ops) (shared_of s)) × (r.1 ≡ finished)

    abbrev pub Serves : List SharedOp → StartState → StartState × Ending → Type 0
    Serves ops s r =
        (shared_of r.0 ≡ run_all run_conn_op (map shares ops) (shared_of s))
        × (is_finished r.1 ≡ select_ends n)

    pub serve-Quits :
        (s : StartState)
        → (header_ops net p n.header).1 ≡ false
        → Quits s (header_ops net p n.header).0 (serve net p n s)
    unfolding serve note
    serve-Quits s fails =
        ground
          (arith, send_header-header_ops n.header s, run_all-shares (header_ops net p n.header).0 s)

    pub serve-Serves :
        {ops : List SharedOp} (s : StartState)
        → Merge (pipe_ops true n.forward) (pipe_ops false n.backward) ops
        → (header_ops net p n.header).1 ≡ true
        → IsUnsignalled s.link
        → Serves ops s (serve net p n s)
    unfolding serve note watch_context
    serve-Serves {ops} s m goes_on fresh =
        let r = send_header net p n.header s in
        let t = note opened r.0 in
        let served = run_pipes n t in
        let same : r.0 ≡ with_link (with_delivered r.0.link.delivered s.link) s =
          ground (arith, send_header-header_ops n.header s, goes_on) in
        let linked : served.link
            ≡ with_delivered served.link.delivered (run_all run_shared_op ops s.link) =
          run_pipes-run_all t m
          ∙ ap (with_delivered served.link.delivered) (
              ap (λ (u : StartState). run_all run_shared_op ops u.link) same
              ∙ run_all-with_delivered ops r.0.link.delivered s.link) in
        let on : r.1 ≡ true = (send_header-header_ops n.header s).0 ∙ goes_on in
        ground (
          arith,
          on,
          linked,
          Framed-run_pipes net p n t,
          Framed-send_header net p n s,
          signals-run_all s.link m fresh,
          run_all-shares ops s,
        )
