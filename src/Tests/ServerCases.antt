-- ===== src/Tests/ServerCases.antt =====
-- nhop/src/proxy/http.rs and nhop/src/daemon/ipc_server.rs: cases of serving a client;
-- and nhop/src/daemon/init_script.rs and open_files.rs: cases of starting.
use nhop.Common.{
  none, ℕ, suc, ◌≡◌, ◌↔◌, refl, sym, ap, arith, some, List, [], ◌∷◌, ◌++◌, take, Result, ok,
}
use nhop.Text.{Text, text}
use nhop.Text.Utf8.{Bytes}
use nhop.Wire.{Command}
use nhop.Rules.Ruleset.{decide}
use nhop.Proxy.Guard.{own_address}
use nhop.Proxy.Forward.Honest.{with_dialer}
use nhop.Proxy.Http.{Method, Body, Request, crlf, head_end}
use nhop.Proxy.Http.Reading.{Head, ends, flat, read_head}
use nhop.Proxy.Http.Blank.{EndsAt, read_head_iff}
use nhop.Proxy.Http.Serving.{serve}
use nhop.Proxy.Http.Serving.Events.{Reported, serve-Reported}
use nhop.Cli.Answer.{Response}
use nhop.Daemon.Server.{converse}
use nhop.Daemon.Server.Ending.{converse-Ends}
use nhop.Upstream.Entries
use nhop.Upstream.Dial.Way.{way}
use nhop.Daemon.Server
use nhop.Daemon.InitScript.{search_path}
use nhop.Daemon.OpenFiles.{Limits, System, raise}
use nhop.Daemon.OpenFiles.Raised.{Sets, Raised, raise-Raised}
use nhop.Proxy.Failure.{IoError}
use nhop.Tests.Fixtures.{cold, platform, rules}
use nhop.Tests.UpstreamCases.{here, before_load}
use nhop.Tests.DialCases.{net}
use nhop.Tests.ForwardCases.{outside}

abbrev connect_head : Bytes
connect_head = text "CONNECT www.example:443 HTTP/1.1" ++ (crlf ++ crlf)

-- The head arrives in two reads, with a byte of the tunnel behind it.
abbrev arrivals : List Bytes
arrivals = text "CONNECT www.exa" ∷ (text "mple:443 HTTP/1.1" ++ (crlf ++ (crlf ++ b'x' ∷ []))) ∷ []

-- The head of the two reads is 36 bytes.
read_head_iff_example :
    (ends (read_head arrivals) ≡ some 36) ↔ EndsAt (take 8192 (flat arrivals)) 36
read_head_iff_example = read_head_iff arrivals 36 tt

abbrev found : Head
found = record { end = 36; read = connect_head ++ b'x' ∷ [] }

abbrev request : Request
request = record {
  method = Method.connect;
  host = text "www.example";
  port = 443;
  body = Body.streamed;
}

serve-Reported_example :
    Reported
      (own_address platform outside.local_addr request.host request.port)
      (way net request.host request.port here.list
        (Entries.selected cold here.list 0 60)
        (decide platform rules request.host request.port))
      (serve
        (with_dialer outside net 60 cold 0 before_load here cold 5)
        (λ addr. [])
        platform
        rules
        arrivals)
unfolding read_head nhop.Proxy.Http.parse_head nhop.Text.Utf8.from_utf8 nhop.Common.list_same
    nhop.Text.Numbers.parse_u16 nhop.Proxy.Http.Serving.head_of
serve-Reported_example =
    serve-Reported outside (λ addr. []) platform rules net 60 cold 0 before_load here cold 5
      arrivals found request [] refl refl refl

abbrev counting : ℕ → Command → ℕ × Response
counting asked command = (suc asked, Response.ok)

abbrev all_status : Text → Result Text Command
all_status line = ok Command.status

abbrev two_lines : Bytes
two_lines = text "{}" ++ (10 ∷ (text "{}" ++ 10 ∷ []))

converse-Ends_example :
    (talk : Server.Talk counting all_status) × (converse counting all_status 7 0 two_lines
      ≡ some talk)
converse-Ends_example = converse-Ends counting all_status 7 0 two_lines (omega arith)

-- The directory of the executable comes first, and an empty variable leaves no colon.
directory_first : search_path (some (text "/bin")) (some (text "/opt")) ≡ text "/opt:/bin"
unfolding search_path
directory_first = refl

no_empty_entry : search_path none (some (text "/opt")) ≡ text "/opt"
unfolding search_path
no_empty_entry = refl

-- The limits are the system's state.
abbrev limits : System Limits
limits = record {
  read = λ s. ok s;
  write = λ soft hard s. (record { soft = soft; hard = hard }, ok tt);
}

raised_to_target :
    raise limits (record { soft = 256; hard = 65536 })
    ≡ (record { soft = 16384; hard = 65536 }, ok (record { soft = 16384; hard = 65536 }))
unfolding raise nhop.Daemon.OpenFiles.raise_from nhop.Daemon.OpenFiles.wanted
raised_to_target = refl

limits-Sets : Sets limits
limits-Sets = record {
  sets = λ s s' soft hard done e.
      ap {B = Result IoError Limits} (λ (w : Limits × Result IoError (Unit {0})). ok w.0) (sym e);
}

raise-Raised_example :
    Raised limits
      (record { soft = 256; hard = 4096 })
      (record { soft = 4096; hard = 4096 })
      (record { soft = 4096; hard = 4096 })
unfolding raise nhop.Daemon.OpenFiles.raise_from nhop.Daemon.OpenFiles.wanted
raise-Raised_example =
    raise-Raised limits limits-Sets (record { soft = 256; hard = 4096 })
      (record { soft = 4096; hard = 4096 }) (record { soft = 256; hard = 4096 })
      (record { soft = 4096; hard = 4096 }) refl refl
