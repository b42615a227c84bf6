-- ===== src/Tests/CliCases.antt =====
-- nhop/src/cli/: cases of the command line.
use nhop.Common.{
  ℕ, ◌≡◌, ◌≢◌, ◌↔◌, refl, arith, ◌<◌, ◌^◌, ◌++◌, Bool, true, false, ◌&&◌, Option, none, some, List,
  [], ◌∷◌, Result, ok, err, if◌then◌else◌, ◌==◌, list_eq, nat_eq,
}
use nhop.Net.{IpAddr, v4, v6, SocketAddr, socket_v4, localhost_v4}
use nhop.Text.{Text, text}
use nhop.Text.Numbers.{show}
use nhop.Wire.{Command, ErrKind}
use nhop.Proxy.Forwards.{Listen}
use nhop.Logging.{Reader}
use nhop.Logging.Resumed.{Resumes, read_from-Resumes}
use nhop.Cli.Exit.{Exit}
use nhop.Cli.Printer.{Printer}
use nhop.Cli.Answer.{Response}
use nhop.Cli.Client.{IoKind, Socket}
use nhop.Cli.SystemProxy.{ProxyEndpoint, Ran, parse}
use nhop.Cli.SystemProxy.Parsed.{printed, parse-printed, parse-InRange}
use nhop.Cli.Doctor.{Check, CheckView, Finding, exit_of, report, passing, failing}
use nhop.Cli.Doctor.Exits.{Judged, exit_of-Judged}
use nhop.Cli.Doctor.Pointed.{Renders}
use nhop.Cli.Doctor.Reported.{report-Perm}
use nhop.Cli.Run.{Process, set_upstreams}
use nhop.Tests.Fixtures.{primary_text, fallback_text}
use mathlib.Core.List.{Permᴰ}

-- The report of a setting that points at a front end.
parse-printed_example :
    parse (printed true (text "127.0.0.1") 9080)
    ≡ some (record { host = text "127.0.0.1"; port = 9080 })
unfolding nhop.Text.is_whitespace
parse-printed_example =
    parse-printed true b'1' (text "27.0.0.1") 9080 refl (omega arith) (omega arith)

abbrev endpoint : ProxyEndpoint
endpoint = record { host = text "127.0.0.1"; port = 9080 }

parse-InRange_example : (endpoint.host ≢ []) × (0 < endpoint.port) × (endpoint.port < 2 ^ 16)
unfolding nhop.Text.is_whitespace
parse-InRange_example =
    parse-InRange (printed true (text "127.0.0.1") 9080)
      (parse-printed true b'1' (text "27.0.0.1") 9080 refl (omega arith) (omega arith))

-- networksetup refuses the second setting.
abbrev refusing : List Text → Ran
refusing [] = Ran.exited 0 []
refusing (flag ∷ arguments) =
    if flag == text "-setsecurewebproxystate" then Ran.exited 4 [] else Ran.exited 0 []

abbrev upstream_off : List CheckView
upstream_off =
    record { name = text "ports_bound"; ok = true; detail = [] }
    ∷ record { name = text "upstream_reachable"; ok = false; detail = [] }
    ∷ []

upstream_off_exits : exit_of upstream_off ≡ Exit.upstream_down
unfolding exit_of nhop.Common.list_same
upstream_off_exits = refl

exit_of-Judged_example : Judged upstream_off (exit_of upstream_off)
exit_of-Judged_example = exit_of-Judged upstream_off

abbrev bound_first : List Finding
bound_first = passing Check.ports_bound [] ∷ failing Check.upstream_reachable [] ∷ []

abbrev reachable_first : List Finding
reachable_first = failing Check.upstream_reachable [] ∷ passing Check.ports_bound [] ∷ []

report-Perm_example : report bound_first ≡ report reachable_first
report-Perm_example =
    report-Perm {xs = bound_first} {ys = reachable_first} (Permᴰ.swap refl refl)
      (((λ e. cc), tt), (tt, tt))

abbrev show_socket : SocketAddr → IpAddr → Text
show_socket addr (v4 bits) = text "v4" ++ (text ":" ++ show addr.port)
show_socket addr (v6 bits) = text "[::1]:" ++ show addr.port

abbrev show_ip : IpAddr → Text
show_ip (v4 bits) = text "v4"
show_ip (v6 bits) = text "::1"

abbrev printer : Printer
printer = record {
  show_ip = show_ip;
  show_socket = λ addr. show_socket addr addr.ip;
  rfc3339 = λ at. show at;
  show_error = λ failure. text "failed";
  show_status = λ status. show status;
  host_unreachable = λ failure. false;
}

printer_Renders : Renders printer
printer_Renders = record {
  socket_v4 = λ bits port f s. refl;
  socket_v6 = λ bits port f s. (text "::1]:" ++ show port, refl);
  ip_v6 = λ bits. (b':', text ":1", refl, omega arith);
}

abbrev mixed : Listen
mixed = record {
  http = socket_v4 localhost_v4 9080;
  socks = record { ip = v6 1; port = 9081; flowinfo = 0; scope_id = 0 };
}

abbrev refuses_lists : Socket
refuses_lists = record {
  kind = λ failure. IoKind.other;
  connects = ok tt;
  sends = λ command. ok tt;
  reads = λ command. ok (text "{}");
  from_json = λ line. ok (Response.err ErrKind.invalid_args (text "unknown command"));
}

abbrev no_reader : Reader
no_reader = record {
  stamped = λ line. none;
  has_fields = λ line. false;
  event_fields = λ line. none;
  verdict_fields = λ line. none;
  switch_fields = λ line. none;
}

abbrev process : Process
process = record {
  printer = printer;
  json = λ response. none;
  show_unreachable = λ failure. text "unreachable";
  socket_file = text "/run/nhop.sock";
  log_file = text "/run/nhop.log";
  socket = refuses_lists;
  socket_again = refuses_lists;
  runs_daemon = ok tt;
  show_start = λ failure. text "failed";
  networksetup = refusing;
  is_root = false;
  load_id = some (text "7");
  absolute = λ path. none;
  now = 0;
  log = record { files = none; contents = λ path. none };
  later_logs = [];
  log_reader = record { reader = no_reader; rfc3339 = λ at. show at };
  show_log_failure = text "failed";
  subscribed = ok [];
}

abbrev list_sent : Command
list_sent = Command.set_upstreams primary_text (fallback_text ∷ []) (some 7)

abbrev half : Text
half = text "{a}" ++ (10 ∷ text "{b")

read_from-Resumes_example : Resumes half (half ++ (text "}" ++ 10 ∷ []))
unfolding nhop.Text.Utf8.from_utf8
read_from-Resumes_example =
    read_from-Resumes half (text "}" ++ 10 ∷ []) half (text "}" ++ 10 ∷ []) refl refl
