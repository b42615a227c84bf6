-- ===== src/Proxy/Http/Rewritten.antt =====
-- nhop/src/proxy/http.rs: the head as the origin receives it.
use nhop.Common.{
  ◌||◌, Bool, Option, none, some, List, [], ◌∷◌, ◌++◌, map, ◌==◌, nat_eq, list_eq, any,
  if◌then◌else◌,
}
use nhop.Text.{Text, text, lower, trim, strip_prefix}
use nhop.Text.Numbers.{show}
use nhop.Text.Splits.{split_once, split_char}
use nhop.Text.Utf8.{Bytes, from_utf8}
use nhop.Wire.{Host, Port}
use nhop.Proxy.Http.{crlf, lines, space}

-- The path from the first slash on, or the root.
abbrev from_slash : Option (Text × Text) → Text
from_slash none = text "/"
from_slash (some (authority, path)) = text "/" ++ path

unfoldable pub origin_form : Text → Text
unfolding split_once
origin_form target = elim (strip_prefix target (text "http://")) [
  | none ↦ target
  | some rest ↦ from_slash (split_once rest (text "/"))
]

abbrev pub hop_by_hop : List Text
hop_by_hop =
    text "connection"
    ∷ text "proxy-connection"
    ∷ text "keep-alive"
    ∷ text "proxy-authenticate"
    ∷ text "proxy-authorization"
    ∷ text "te"
    ∷ text "trailer"
    ∷ text "upgrade"
    ∷ []

-- Whether a field is dropped: the host, and the fields that belong to one hop.
unfoldable pub dropped : Text → Bool
dropped field =
    let label = map lower (trim field) in
    label == text "host" || any (λ (hop : Text). label == hop) hop_by_hop

abbrev kept_line : Text → Option (Text × Text) → Text
kept_line line none = []
kept_line line (some (field, value)) = if dropped field then [] else line ++ crlf

unfoldable pub kept_fields : List Text → Text
unfolding split_once
kept_fields [] = []
kept_fields (line ∷ more) = kept_line line (split_once line (text ":")) ++ kept_fields more

abbrev host_port : Port → Text
host_port port = if port == 80 then [] else text ":" ++ show port

abbrev rewritten_fields : Text → Host → Port → List Text → Option Text
rewritten_fields headers host port (method ∷ target ∷ more) = some (
    method
    ++ (text " "
        ++ (origin_form target
            ++ (text " HTTP/1.1"
                ++ (crlf
                    ++ (text "Host: "
                        ++ (host
                            ++ (host_port port
                                ++ (crlf
                                    ++ (kept_fields (lines headers)
                                        ++ (text "Connection: close" ++ (crlf ++ crlf))))))))))))
rewritten_fields headers host port (_ ∷ []) = none
rewritten_fields headers host port [] = none

abbrev rewritten_split : Host → Port → Option (Text × Text) → Option Text
rewritten_split host port none = none
rewritten_split host port (some (line, headers)) =
    rewritten_fields headers host port (split_char space [] line)

-- The text whose bytes are forwarded.
unfoldable pub rewritten : Bytes → Host → Port → Option Text
unfolding origin_form kept_fields split_char
rewritten head host port = elim (from_utf8 head) [
  | none ↦ none
  | some read ↦ rewritten_split host port (split_once read crlf)
]
