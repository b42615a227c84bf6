-- ===== src/Cli/Doctor/Checks.antt =====
-- nhop/src/cli/doctor.rs: what the checks find that read the daemon's state and the file system.
-- What `fs::metadata` and `Path::parent` answer are arguments, a path is its text.
use nhop.Common.{
  ℕ, ◌+◌, ◌/◌, ◌%◌, Bool, not, Option, none, some, List, [], ◌∷◌, ◌++◌, ◌==◌, nat_eq, list_eq,
  if◌then◌else◌, Result, ok, err,
}
use nhop.Net.{SocketAddr}
use nhop.Text.{Text, text}
use nhop.Text.Numbers.{show}
use nhop.Wire.{LoadOutcome}
use nhop.Proxy.Forwards.{Forwards, Listen}
use nhop.Cli.Printer.{Printer, join}
use nhop.Cli.Status.{PathBuf, BindState, LastLoadView}
use nhop.Cli.SystemProxy.{
  NetworkService, ProxyEndpoint, ProxyFailure, SystemProxy, show_endpoint, show_failure,
}
use nhop.Cli.Doctor.{Check, Finding, passing, failing}

unfoldable pub daemon_reachable : PathBuf → Finding
daemon_reachable socket_file =
    passing Check.daemon_reachable (text "the daemon answered on " ++ socket_file)

unfoldable pub unreachable : Text → Finding
unreachable failure = failing Check.daemon_reachable (failure ++ text ", run `nhop start`")

-- What one run of a program reads of a file.
pub record Metadata : Type 0 where
  pub is_file : Bool
  pub is_dir : Bool
  pub mode : ℕ

-- `mode & 0o111 == 0` and `mode & 0o200 == 0`
abbrev no_execute : ℕ → Bool
no_execute mode = (mode % 2 + mode / 8 % 2 + mode / 64 % 2) == 0

abbrev no_owner_write : ℕ → Bool
no_owner_write mode = (mode / 128 % 2) == 0

unfoldable pub init_file : PathBuf → Option Metadata → Finding
init_file path none =
    failing Check.init_file
      (text "no init script at " ++ (path ++ text ", every connection is direct until one exists"))
init_file path (some found) =
    if not found.is_file
    then failing Check.init_file (path ++ text " is not a file")
    else if no_execute found.mode
    then failing Check.init_file
        (path ++ (text " is not executable, run `chmod +x " ++ (path ++ text "`")))
    else passing Check.init_file (path ++ text " is executable")

-- The directory of the log file, where it has one, and what `fs::metadata` answers of it.
abbrev pub log_dir : PathBuf → PathBuf → Option Metadata → Finding
log_dir log_file path none = failing Check.log_writable (text "no state directory at " ++ path)
log_dir log_file path (some found) =
    if not found.is_dir
    then failing Check.log_writable (path ++ text " is not a directory")
    else if no_owner_write found.mode
    then failing Check.log_writable
        (path ++ (text " is not writable, run `chmod u+rwx " ++ (path ++ text "`")))
    else passing Check.log_writable (log_file ++ text " is writable")

unfoldable pub log_writable : PathBuf → Option (PathBuf × Option Metadata) → Finding
log_writable log_file none =
    failing Check.log_writable (log_file ++ text " names no directory to write into")
log_writable log_file (some (path, found)) = log_dir log_file path found

module _ (pr : Printer) where
  unfoldable pub forwarded : Forwards → Text
  forwarded [] = []
  forwarded (forward ∷ forwards) =
      text ", forward on "
      ++ (pr.show_socket forward.listen
          ++ (text " to "
              ++ (forward.target.host
                  ++ (text ":" ++ (show forward.target.port ++ forwarded forwards)))))

  unfoldable pub ports_bound : Listen → Forwards → BindState → Finding
  unfolding forwarded
  ports_bound listen forwards BindState.bound = passing Check.ports_bound (
      text "http on "
      ++ (pr.show_socket listen.http
          ++ (text ", socks5 on " ++ (pr.show_socket listen.socks ++ forwarded forwards))))
  ports_bound listen forwards BindState.unbound = failing Check.ports_bound (
      text "nothing is listening on "
      ++ (pr.show_socket listen.http
          ++ (text " or " ++ (pr.show_socket listen.socks ++ text ", restart the daemon"))))

  -- What is wrong with one setting, if anything is.
  unfoldable pub misdirected : Text → Option ProxyEndpoint → SocketAddr → List Text
  unfolding show_endpoint
  misdirected name none wanted = (name ++ text " is off") ∷ []
  misdirected name (some configured) wanted =
      if show_endpoint configured == pr.show_socket wanted
      then []
      else (name
          ++ (text " points at "
              ++ (show_endpoint configured ++ (text ", not at " ++ pr.show_socket wanted))))
        ∷ []

  unfoldable pub misdirections : SystemProxy → Listen → List Text
  unfolding misdirected
  misdirections proxy listen =
      misdirected (text "http") proxy.http listen.http
      ++ (misdirected (text "https") proxy.https listen.http
          ++ misdirected (text "socks") proxy.socks listen.socks)

  abbrev pub directed : Listen → NetworkService → List Text → Finding
  directed listen service [] = passing Check.system_proxy (
      service
      ++ (text " sends http and https to "
          ++ (pr.show_socket listen.http
              ++ (text " and socks to " ++ pr.show_socket listen.socks))))
  directed listen service (wrong ∷ more) = failing Check.system_proxy (
      service
      ++ (text ": " ++ (join (text ", ") (wrong ∷ more) ++ text ", run `sudo nhop proxy on`")))

  unfoldable pub system_proxy : Result ProxyFailure SystemProxy → Listen → NetworkService → Finding
  unfolding misdirections join show_failure
  system_proxy (err failure) listen service = failing Check.system_proxy (
      text "cannot read the settings of "
      ++ (service ++ (text ": " ++ show_failure pr.show_error pr.show_status failure)))
  system_proxy (ok proxy) listen service = directed listen service (misdirections proxy listen)

  abbrev on_command : Option Text → Text
  on_command none = []
  on_command (some command) = text " on " ++ command

  abbrev ran_at : LastLoadView → LoadOutcome → Finding
  ran_at load LoadOutcome.ok =
      passing Check.last_load (text "the run at " ++ (pr.rfc3339 load.at ++ text " committed"))
  ran_at load LoadOutcome.failed = failing Check.last_load (
      text "the run at "
      ++ (pr.rfc3339 load.at
          ++ (text " failed"
              ++ (on_command load.command ++ text ", fix it and run `nhop reload`"))))
  ran_at load LoadOutcome.timed_out = failing Check.last_load (
      text "the run at "
      ++ (pr.rfc3339 load.at ++ text " outlived the load timeout and was killed"))

  unfoldable pub last_load : Option LastLoadView → Finding
  last_load none =
      failing Check.last_load
        (text "no init script has been loaded, the ruleset is empty and every connection is direct")
  last_load (some load) = ran_at load load.outcome
