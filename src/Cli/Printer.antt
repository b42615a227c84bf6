-- ===== src/Cli/Printer.antt =====
-- What the command line prints with code that is not its own, and `join` of texts.
use nhop.Common.{ℕ, Bool, List, [], ◌∷◌, ◌++◌}
use nhop.Net.{IpAddr, SocketAddr}
use nhop.Text.{Text}
use nhop.Proxy.Failure.{IoError}
use nhop.Upstream.Health.{SystemTime}

-- The rendering of addresses, of instants by the crate `humantime`, of errors and of exit statuses,
-- and whether an error is of the kind `HostUnreachable`.
pub record Printer : Type 0 where
  pub show_ip : IpAddr → Text
  pub show_socket : SocketAddr → Text
  pub rfc3339 : SystemTime → Text
  pub show_error : IoError → Text
  pub show_status : ℕ → Text
  pub host_unreachable : IoError → Bool

unfoldable pub join : Text → List Text → Text
join separator [] = []
join separator (part ∷ []) = part
join separator (part ∷ next ∷ parts) = part ++ (separator ++ join separator (next ∷ parts))
