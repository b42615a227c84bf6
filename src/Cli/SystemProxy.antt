-- ===== src/Cli/SystemProxy.antt =====
-- nhop/src/cli/system_proxy.rs: the settings that macOS keeps for a network service, as they are
-- read and written through networksetup. A run of networksetup is an argument.
pub mod Lines
pub mod Parsed
pub mod Applied
use nhop.Common.{
  ℕ, Bool, true, false, not, ◌&&◌, ◌||◌, Option, none, some, List, [], ◌∷◌, ◌++◌, map, ◌==◌, nat_eq,
  list_eq, if◌then◌else◌, Result, ok, err,
}
use nhop.Net.{IpAddr, SocketAddr}
use nhop.Text.{Text, text, trim}
use nhop.Text.Numbers.{show, parse_u16}
use nhop.Text.Splits.{split_once, lines}
use nhop.Text.Utf8.{Bytes, from_utf8}
use nhop.Proxy.Failure.{IoError}
use nhop.Proxy.Forwards.{Listen}

-- A network service is its name.
abbrev pub NetworkService : Type 0
NetworkService = Text

unfoldable pub parse_service : Text → Option NetworkService
parse_service [] = none
parse_service (c ∷ service) = some (c ∷ service)

abbrev bypass : List Text
bypass = text "localhost" ∷ text "127.0.0.1" ∷ text "*.local" ∷ text "169.254/16" ∷ []

pub data ProxyKind : Type 0 where
  http https socks : ProxyKind

unfoldable pub read_flag : ProxyKind → Text
read_flag ProxyKind.http = text "-getwebproxy"
read_flag ProxyKind.https = text "-getsecurewebproxy"
read_flag ProxyKind.socks = text "-getsocksfirewallproxy"

unfoldable pub write_flag : ProxyKind → Text
write_flag ProxyKind.http = text "-setwebproxy"
write_flag ProxyKind.https = text "-setsecurewebproxy"
write_flag ProxyKind.socks = text "-setsocksfirewallproxy"

unfoldable pub state_flag : ProxyKind → Text
state_flag ProxyKind.http = text "-setwebproxystate"
state_flag ProxyKind.https = text "-setsecurewebproxystate"
state_flag ProxyKind.socks = text "-setsocksfirewallproxystate"

pub record Invocation : Type 0 where
  pub flag : Text
  pub arguments : List Text

unfoldable pub argv : Invocation → List Text
argv i = i.flag ∷ i.arguments

unfoldable pub invocation : Text → NetworkService → List Text → Invocation
invocation flag service rest = record { flag = flag; arguments = service ∷ rest }

abbrev pub pointed : (IpAddr → Text) → NetworkService → ProxyKind → SocketAddr → Invocation
pointed show_ip service kind addr =
    invocation (write_flag kind) service (show_ip addr.ip ∷ show addr.port ∷ [])

unfoldable pub enabling : (IpAddr → Text) → Listen → NetworkService → List Invocation
unfolding invocation write_flag
enabling show_ip listen service =
    pointed show_ip service ProxyKind.http listen.http
    ∷ pointed show_ip service ProxyKind.https listen.http
    ∷ pointed show_ip service ProxyKind.socks listen.socks
    ∷ invocation (text "-setproxybypassdomains") service bypass
    ∷ []

unfoldable pub disabling : NetworkService → List Invocation
unfolding invocation state_flag
disabling service =
    map (λ kind. invocation (state_flag kind) service (text "off" ∷ []))
      (ProxyKind.http ∷ ProxyKind.https ∷ ProxyKind.socks ∷ [])

pub record ProxyEndpoint : Type 0 where
  pub host : Text
  pub port : ℕ

unfoldable pub show_endpoint : ProxyEndpoint → Text
show_endpoint e = e.host ++ (text ":" ++ show e.port)

pub record SystemProxy : Type 0 where
  pub http : Option ProxyEndpoint
  pub https : Option ProxyEndpoint
  pub socks : Option ProxyEndpoint

pub record SystemProxyView : Type 0 where
  pub http : Option Text
  pub https : Option Text
  pub socks : Option Text

unfoldable pub named : Option ProxyEndpoint → Option Text
unfolding show_endpoint
named none = none
named (some endpoint) = some (show_endpoint endpoint)

unfoldable pub view : SystemProxy → SystemProxyView
unfolding named
view s = record { http = named s.http; https = named s.https; socks = named s.socks }

-- How a run of networksetup ended: an exit has a status, of which zero is success.
pub data Ran : Type 0 where
  not_run : IoError → Ran
  exited : ℕ → Bytes → Ran

pub data ProxyFailure : Type 0 where
  not_run : IoError → ProxyFailure
  refused : Text → ℕ → ProxyFailure
  unreadable : Text → ProxyFailure

unfoldable pub show_failure : (IoError → Text) → (ℕ → Text) → ProxyFailure → Text
show_failure show_error show_status (ProxyFailure.not_run failure) =
    text "cannot run networksetup: " ++ show_error failure
show_failure show_error show_status (ProxyFailure.refused flag status) =
    text "networksetup " ++ (flag ++ (text " exited with " ++ show_status status))
show_failure show_error show_status (ProxyFailure.unreadable flag) =
    text "networksetup " ++ (flag ++ text " answered with something that is not utf-8")

-- One invocation, and the rest of them where it succeeds. What is run comes back beside the result.
abbrev pub judged : Text → Ran → Result ProxyFailure (Unit {0})
judged flag (Ran.not_run failure) = err (ProxyFailure.not_run failure)
judged flag (Ran.exited status stdout) =
    if status == 0 then ok tt else err (ProxyFailure.refused flag status)

abbrev pub then_rest :
    Invocation
    → Result ProxyFailure (Unit {0})
    → List Invocation × Result ProxyFailure (Unit {0})
    → List Invocation × Result ProxyFailure (Unit {0})
then_rest i (err failure) rest = (i ∷ [], err failure)
then_rest i (ok done) (run, result) = (i ∷ run, result)

unfoldable pub apply :
    (List Text → Ran) → List Invocation → List Invocation × Result ProxyFailure (Unit {0})
unfolding argv
apply run [] = ([], ok tt)
apply run (i ∷ invocations) = then_rest i (judged i.flag (run (argv i))) (apply run invocations)

-- The fields as the loop of `parse` has read them.
pub record Fields : Type 0 where
  pub enabled : Bool
  pub host : Text
  pub port : ℕ

abbrev pub or_zero : Option ℕ → ℕ
or_zero none = 0
or_zero (some port) = port

abbrev pub field : Fields → Text → Text → Fields
field s name value =
    if name == text "Enabled"
    then record s { enabled = value == text "Yes" }
    else if name == text "Server"
    then record s { host = value }
    else if name == text "Port"
    then record s { port = or_zero (parse_u16 value) }
    else s

abbrev pub line_read : Fields → Option (Text × Text) → Fields
line_read s none = s
line_read s (some (name, value)) = field s (trim name) (trim value)

unfoldable pub fields : Fields → List Text → Fields
unfolding split_once trim parse_u16
fields s [] = s
fields s (line ∷ more) = fields (line_read s (split_once line (text ":"))) more

abbrev pub is_empty : Text → Bool
is_empty [] = true
is_empty (c ∷ s) = false

abbrev pub endpoint : Fields → Option ProxyEndpoint
endpoint s =
    if not s.enabled || is_empty s.host || s.port == 0
    then none
    else some (record { host = s.host; port = s.port })

abbrev pub unread : Fields
unread = record { enabled = false; host = []; port = 0 }

unfoldable pub parse : Text → Option ProxyEndpoint
unfolding fields lines
parse reported = endpoint (fields unread (lines [] reported))

abbrev decoded : Text → Option Text → Result ProxyFailure Text
decoded flag none = err (ProxyFailure.unreadable flag)
decoded flag (some reported) = ok reported

abbrev reported_by : Text → Ran → Result ProxyFailure Text
reported_by flag (Ran.not_run failure) = err (ProxyFailure.not_run failure)
reported_by flag (Ran.exited status stdout) =
    if status == 0 then decoded flag (from_utf8 stdout) else err (ProxyFailure.refused flag status)

unfoldable pub report : (List Text → Ran) → ProxyKind → NetworkService → Result ProxyFailure Text
unfolding read_flag from_utf8
report run kind service = reported_by (read_flag kind) (run (read_flag kind ∷ service ∷ []))

-- The three reports, the first failure among them ending the reading.
abbrev read_three :
    Result ProxyFailure Text
    → Result ProxyFailure Text
    → Result ProxyFailure Text
    → Result ProxyFailure SystemProxy
read_three (err failure) second third = err failure
read_three (ok web) (err failure) third = err failure
read_three (ok web) (ok secure) (err failure) = err failure
read_three (ok web) (ok secure) (ok firewall) =
    ok (record { http = parse web; https = parse secure; socks = parse firewall })

unfoldable pub read : (List Text → Ran) → NetworkService → Result ProxyFailure SystemProxy
unfolding report parse
read run service =
    read_three (report run ProxyKind.http service) (report run ProxyKind.https service)
      (report run ProxyKind.socks service)
