-- ===== src/Cli/Arguments.antt =====
-- nhop/src/cli/mod.rs: the arguments, and the commands that they stand for. Splitting the command
-- line into a subcommand and its arguments is the crate `argh`.
pub mod Destinations
use nhop.Common.{
  ℕ, ◌^◌, nat_eq, Bool, true, false, Option, none, some, List, [], ◌∷◌, ◌++◌, ◌==◌, list_eq,
  if◌then◌else◌, Result, ok, err,
}
use nhop.Net.{SocketAddr, Platform, socket_v4, localhost_v4}
use nhop.Text.{Text, text, strip_prefix, strip_suffix, trim}
use nhop.Text.Numbers.{parse_u16, parse_unsigned}
use nhop.Text.Splits.{rsplit_once}
use nhop.Wire.{Command, Host, LoadId, Port, RuleClass, RuleKind, RuleValue, UpstreamAddr, upstreams}
use nhop.Upstream.Health.{Duration}
use nhop.Cli.Status.{PathBuf}
use nhop.Cli.SystemProxy.{NetworkService}

pub record Destination : Type 0 where
  pub host : Host
  pub port : Port

abbrev pub or_whole : Text → Option Text → Text
or_whole s none = s
or_whole s (some rest) = rest

-- The host without the bracket before it and the one behind it.
unfoldable pub unbracketed : Text → Text
unfolding strip_prefix strip_suffix
unbracketed host =
    let inner = or_whole host (strip_prefix host (b'[' ∷ [])) in
    or_whole inner (strip_suffix inner (b']' ∷ []))

-- A destination that cannot be read is the text itself.
abbrev pub with_host : Text → Text → ℕ → Result Text Destination
with_host target [] port = err target
with_host target (c ∷ host) port = ok (record { host = c ∷ host; port = port })

abbrev pub with_port : Text → Text → Option ℕ → Result Text Destination
with_port target host none = err target
with_port target host (some port) = with_host target host port

abbrev pub with_split : Text → Option (Text × Text) → Result Text Destination
unfolding unbracketed parse_u16
with_split target none = err target
with_split target (some (host, port)) = with_port target (unbracketed host) (parse_u16 port)

unfoldable pub parse_destination : Text → Result Text Destination
unfolding rsplit_once
parse_destination target = with_split target (rsplit_once target b':')

unfoldable pub parse_kind : Text → Option RuleKind
parse_kind kind =
    if kind == text "suffix"
    then some RuleKind.suffix
    else if kind == text "cidr"
    then some RuleKind.cidr
    else if kind == text "port"
    then some RuleKind.port
    else if kind == text "keyword"
    then some RuleKind.keyword
    else none

abbrev pub bare_port : Option ℕ → Option SocketAddr
bare_port none = none
bare_port (some port) = some (socket_v4 localhost_v4 port)

abbrev pub addressed : Text → Option SocketAddr → Option SocketAddr
unfolding parse_u16
addressed listen (some addr) = some addr
addressed listen none = bare_port (parse_u16 listen)

unfoldable pub parse_forward_listen : {N : Type 0} → Platform N → Text → Option SocketAddr
parse_forward_listen p listen = addressed listen (p.parse_socket listen)

pub data ProxyAction : Type 0 where
  on off status : ProxyAction

pub data Subcommand : Type 0 where
  start : Subcommand
  require prefer never : RuleKind → RuleValue → Subcommand
  upstream : UpstreamAddr → List UpstreamAddr → Subcommand
  listen : SocketAddr → SocketAddr → Subcommand
  forward : SocketAddr → Destination → Subcommand
  reload : Option PathBuf → Subcommand
  on off : Subcommand
  status rules : Bool → Subcommand
  test : Destination → Bool → Subcommand
  logs : Bool → Option Duration → Bool → Subcommand
  tail doctor : Bool → Subcommand
  proxy : ProxyAction → NetworkService → Subcommand

pub data Output : Type 0 where
  json human : Output

unfoldable pub output_of : Bool → Output
output_of true = Output.json
output_of false = Output.human

-- `LoadId::from_str`, and its `Display`, which is `show`.
unfoldable pub parse_load_id : Text → Option LoadId
unfolding parse_unsigned
parse_load_id id = parse_unsigned (2 ^ 64) (trim id)

-- The run that the environment names, where it names one in UTF-8.
unfoldable pub load_of_env : Option Text → Option LoadId
unfolding parse_load_id
load_of_env none = none
load_of_env (some id) = parse_load_id id

-- `path::absolute` is an argument.
unfoldable pub reload_path : (PathBuf → Option PathBuf) → Option PathBuf → Option PathBuf
reload_path absolute none = none
reload_path absolute (some path) = some (or_whole path (absolute path))
