-- ===== src/Cli/Render.antt =====
-- nhop/src/cli/mod.rs: what a command prints, and the code that an answer exits with. Output is a
-- list of lines; a write that fails changes nothing, since its result is dropped.
use nhop.Common.{
  ℕ, ◌-◌, Bool, true, false, Option, none, some, List, [], ◌∷◌, ◌++◌, map, length, zero, suc,
}
use nhop.Text.{Text, text}
use nhop.Text.Numbers.{show}
use nhop.Wire.{HealthState, UpstreamAddr}
use nhop.Proxy.Events.{EventView}
use nhop.Proxy.Forwards.{ForwardView}
use nhop.Upstream.Health.{SystemTime}
use nhop.Cli.Printer.{Printer}
use nhop.Cli.Names.{
  class_name, kind_name, decision_name, health_name, bound_name, check_name, fallen_back, rule_name,
  init_name, load_name, proxy_name,
}
use nhop.Cli.Explain.{RuleView, DecisionView}
use nhop.Cli.Status.{UpstreamView}
use nhop.Cli.StatusView.{StatusView}
use nhop.Cli.SystemProxy.{SystemProxyView}
use nhop.Cli.Doctor.{CheckView}
use nhop.Cli.Answer.{Response}
use nhop.Cli.Arguments.{Output}
use nhop.Cli.Exit.{Exit, of_err}

-- What a command has written to each stream, and the code that it exits with.
pub record Printed : Type 0 where
  pub out : List Text
  pub err : List Text
  pub exit : Exit

abbrev pub succeeds : List Text → Printed
succeeds out = record { out = out; err = []; exit = Exit.success }

abbrev pub fails : Exit → Text → Printed
fails exit message = record { out = []; err = (text "nhop: " ++ message) ∷ []; exit = exit }

abbrev spaces : ℕ → Text
spaces zero = []
spaces (suc n) = 32 ∷ spaces n

-- `{:<14}`
unfoldable pub padded : Text → Text
padded label = label ++ spaces (14 - length label)

unfoldable pub rule_line : RuleView → Text
unfolding class_name kind_name
rule_line rule =
    show rule.index
    ++ (text "  "
        ++ (class_name rule.class
            ++ (text "  " ++ (kind_name rule.kind ++ (text "  " ++ rule.value)))))

unfoldable pub check_line : CheckView → Text
unfolding check_name
check_line check = check_name check.ok ++ (text "  " ++ (check.name ++ (text "  " ++ check.detail)))

unfoldable pub decision_line : DecisionView → Text
unfolding decision_name rule_name
decision_line d =
    decision_name d.decision
    ++ (text " via " ++ (rule_name d.rule_index d.class ++ (text " to " ++ d.next_hop)))

abbrev dial_time : Option ℕ → Text
dial_time none = []
dial_time (some ms) = text " (dial " ++ (show ms ++ text "ms)")

abbrev carrier : Option UpstreamAddr → Text
carrier none = []
carrier (some via) = text " @ " ++ via

abbrev or_dash : Option Text → Text
or_dash none = text "-"
or_dash (some error) = error

unfoldable pub event_line : EventView → Text
unfolding decision_name rule_name fallen_back health_name
event_line e =
    e.host
    ++ (text ":"
        ++ (show e.port
            ++ (text "  "
                ++ (decision_name e.decision
                    ++ (text " via "
                        ++ (rule_name e.rule_index e.class
                            ++ (carrier e.via
                                ++ (fallen_back e.hop
                                    ++ (text "  upstream "
                                        ++ (health_name e.upstream
                                            ++ (text "  "
                                                ++ (show e.duration_ms
                                                    ++ (text "ms"
                                                        ++ (dial_time e.connect_ms
                                                            ++ (text "  "
                                                            ++ or_dash e.error)))))))))))))))

unfoldable pub proxy_lines : SystemProxyView → List Text
unfolding proxy_name
proxy_lines proxy =
    (text "http   " ++ proxy_name proxy.http)
    ∷ (text "https  " ++ proxy_name proxy.https)
    ∷ (text "socks  " ++ proxy_name proxy.socks)
    ∷ []

module _ (pr : Printer) where
  unfoldable pub upstream_line : Text → UpstreamAddr → HealthState → SystemTime → Text → Text
  unfolding padded health_name
  upstream_line label addr health changed_at mark =
      padded label
      ++ (addr
          ++ (text " "
              ++ (health_name health ++ (text " since " ++ (pr.rfc3339 changed_at ++ mark)))))

  abbrev mark_of : Bool → Text
  mark_of true = text " (selected)"
  mark_of false = []

  unfoldable pub listed_line : Text → UpstreamView → Text
  unfolding upstream_line
  listed_line label u = upstream_line label u.addr u.health u.health_changed_at (mark_of u.selected)

  -- `render_upstreams`
  unfoldable pub upstream_lines :
      UpstreamAddr → HealthState → SystemTime → List UpstreamView → List Text
  unfolding upstream_line listed_line
  upstream_lines first health changed_at [] =
      upstream_line (text "upstream") first health changed_at [] ∷ []
  upstream_lines first health changed_at (u ∷ []) =
      upstream_line (text "upstream") first health changed_at [] ∷ []
  upstream_lines first health changed_at (primary ∷ second ∷ rest) =
      listed_line (text "upstream") primary ∷ map (listed_line (text "fallback")) (second ∷ rest)

  abbrev forward_line : ForwardView → Text
  forward_line f =
      text "forward       "
      ++ (pr.show_socket f.listen ++ (text " -> " ++ (f.host ++ (text ":" ++ show f.port))))

  unfoldable pub status_lines : StatusView → List Text
  unfolding upstream_lines bound_name init_name load_name proxy_name
  status_lines s =
      (text "uptime        " ++ (show s.uptime_secs ++ text "s"))
      ∷ (text "http          "
          ++ (pr.show_socket s.http_listen ++ (text " " ++ bound_name s.http_bound)))
      ∷ (text "socks         "
          ++ (pr.show_socket s.socks_listen ++ (text " " ++ bound_name s.socks_bound)))
      ∷ (map forward_line s.forwards
          ++ (upstream_lines s.upstream s.health s.health_changed_at s.upstreams
              ++ (text "rules         require "
                  ++ (show s.rules.require
                      ++ (text ", prefer "
                          ++ (show s.rules.prefer ++ (text ", never " ++ show s.rules.never)))))
                ∷ (text "init          " ++ init_name s.init_path)
                ∷ (text "last load     " ++ load_name pr.rfc3339 s.last_load)
                ∷ (text "system proxy  http "
                    ++ (proxy_name s.system_proxy.http
                        ++ (text ", https "
                            ++ (proxy_name s.system_proxy.https
                                ++ (text ", socks " ++ proxy_name s.system_proxy.socks)))))
                ∷ []))

  abbrev human_lines : Response → List Text
  human_lines Response.ok = []
  human_lines (Response.rules rules) = map rule_line rules
  human_lines (Response.status status) = status_lines status
  human_lines (Response.decision decision) = decision_line decision ∷ []
  human_lines (Response.doctor checks) = map check_line checks
  human_lines (Response.event event) = event_line event ∷ []
  human_lines (Response.err kind message) = []

  abbrev document : Option Text → List Text
  document none = []
  document (some written) = written ∷ []

  -- `json` writes what an answer carries as one document, where it can.
  unfoldable pub payload_lines : (Response → Option Text) → Output → Response → List Text
  unfolding rule_line status_lines decision_line check_line event_line
  payload_lines json Output.human response = human_lines response
  payload_lines json Output.json Response.ok = []
  payload_lines json Output.json response = document (json response)

  unfoldable pub render : (Response → Option Text) → Output → Response → Printed
  unfolding payload_lines of_err
  render json output (Response.err kind message) = fails (of_err kind) message
  render json output response = succeeds (payload_lines json output response)
