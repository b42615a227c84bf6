-- ===== src/Proxy/Http.antt =====
-- nhop/src/proxy/http.rs: the HTTP front end's reading of a request, and what it forwards of it.
-- A head is the text that its bytes encode.
pub mod Framed
pub mod Rewritten
pub mod Reading
pub mod Blank
pub mod Serving
use nhop.Common.{
  ℕ, suc, ◌+◌, ◌-◌, ◌^◌, Bool, true, false, not, ◌&&◌, ◌||◌, Option, none, some, List, [], ◌∷◌,
  ◌++◌, map, ◌==◌, nat_eq, list_eq, any, if◌then◌else◌, length, take, min,
}
use nhop.Text.{Text, text, lower, trim, strip_prefix, starts_with}
use nhop.Text.Numbers.{show, parse_u16, parse_unsigned}
use nhop.Text.Splits.{split_once, rsplit_once, split_char, split_pair}
use nhop.Text.Utf8.{Bytes, from_utf8}
use nhop.Wire.{Host, Port}

pub data Method : Type 0 where
  connect absolute : Method

pub data Body : Type 0 where
  sized : ℕ → Body
  streamed : Body

pub record Request : Type 0 where
  pub method : Method
  pub host : Host
  pub port : Port
  pub body : Body

pub data Rest : Type 0 where
  bytes : ℕ → Rest
  streamed : Rest

abbrev pub u64_max : ℕ
u64_max = 2 ^ 64 - 1

-- A `usize` has 64 bits.
unfoldable pub limit : Rest → ℕ
limit (Rest.bytes n) = min n u64_max
limit Rest.streamed = u64_max

unfoldable pub behind_the_head : Bytes → Method → Body → Bytes
behind_the_head rest Method.connect body = rest
behind_the_head rest Method.absolute Body.streamed = rest
behind_the_head rest Method.absolute (Body.sized len) = take (min len (length rest)) rest

unfoldable pub rest_of_body : Method → Body → Bytes → Rest
rest_of_body Method.connect body behind = Rest.streamed
rest_of_body Method.absolute Body.streamed behind = Rest.streamed
rest_of_body Method.absolute (Body.sized len) behind = Rest.bytes (len - length behind)

-- The first end of a head, counted from `index`.
abbrev pub is_end : ℕ → ℕ → ℕ → ℕ → Bool
is_end a b c d = a == 13 && b == 10 && c == 13 && d == 10

unfoldable pub head_end_from : ℕ → Bytes → Option ℕ
head_end_from index (a ∷ b ∷ c ∷ d ∷ rest) =
    let later = head_end_from (suc index) (b ∷ c ∷ d ∷ rest) in
    if is_end a b c d then some (index + 4) else later
head_end_from index (a ∷ b ∷ c ∷ []) = none
head_end_from index (a ∷ b ∷ []) = none
head_end_from index (a ∷ []) = none
head_end_from index [] = none

unfoldable pub head_end : Bytes → Option ℕ
unfolding head_end_from
head_end buffer = head_end_from 0 buffer

abbrev pub default_port : Port
default_port = 80

abbrev colon : ℕ
colon = 58

abbrev pub crlf : Text
crlf = 13 ∷ 10 ∷ []

abbrev pub lines : Text → List Text
lines headers = split_pair 13 10 [] headers

unfoldable pub named : Host → Port → Option (Host × Port)
named host port = if host == [] then none else some (host, port)

abbrev or_named : Host → Option Port → Option (Host × Port)
or_named host none = none
or_named host (some fallback) = named host fallback

abbrev on_port : Host → Option Port → Option (Host × Port)
on_port host none = none
on_port host (some port) = named host port

abbrev plain_authority : Text → Option Port → Option (Text × Text) → Option (Host × Port)
plain_authority authority fallback none = or_named authority fallback
plain_authority authority fallback (some (host, port)) = on_port host (parse_u16 port)

abbrev bracketed_port : Text → Option Port → Option Text → Option (Host × Port)
bracketed_port host fallback none = or_named host fallback
bracketed_port host fallback (some port) = on_port host (parse_u16 port)

abbrev bracketed_authority : Option Port → Option (Text × Text) → Option (Host × Port)
bracketed_authority fallback none = none
bracketed_authority fallback (some (host, rest)) =
    bracketed_port host fallback (strip_prefix rest (text ":"))

unfoldable pub split_authority : Text → Option Port → Option (Host × Port)
unfolding named rsplit_once split_once
split_authority authority fallback = elim (strip_prefix authority (text "[")) [
  | none ↦ plain_authority authority fallback (rsplit_once authority colon)
  | some bracketed ↦ bracketed_authority fallback (split_once bracketed (text "]"))
]

-- `header`, over the lines of the fields.
abbrev field_of : Text → Option (Text × Text) → Option Text → Option Text
field_of name none later = later
field_of name (some (field, value)) later =
    if map lower (trim field) == map lower name then some (trim value) else later

unfoldable pub header_in : List Text → Text → Option Text
header_in [] name = none
header_in (line ∷ more) name =
    let later = header_in more name in field_of name (split_once line (text ":")) later

unfoldable pub header : Text → Text → Option Text
unfolding header_in split_pair
header headers name = header_in (lines headers) name

abbrev sized_by : Option Text → Body
sized_by none = Body.sized 0
sized_by (some written) = elim (parse_unsigned (2 ^ 64) written) [
  | none ↦ Body.sized 0
  | some len ↦ Body.sized len
]

unfoldable pub body_of : Text → Body
unfolding header
body_of headers = elim (header headers (text "transfer-encoding")) [
  | some coding ↦ Body.streamed
  | none ↦ sized_by (header headers (text "content-length"))
]

abbrev before_slash : Text → Option (Text × Text) → Text
before_slash rest none = rest
before_slash rest (some (authority, path)) = authority

unfoldable pub absolute_authority : Text → Option Text
unfolding split_once
absolute_authority target = elim (strip_prefix target (text "http://")) [
  | none ↦ none
  | some rest ↦ some (before_slash rest (split_once rest (text "/")))
]

abbrev request_to : Method → Body → Option (Host × Port) → Option Request
request_to method body none = none
request_to method body (some (host, port)) =
    some (record { method = method; host = host; port = port; body = body })

abbrev absolute_to : Text → Option Text → Option Request
absolute_to headers none = none
absolute_to headers (some authority) =
    request_to Method.absolute (body_of headers) (split_authority authority (some default_port))

abbrev authority_of : Text → Text → Option Text
authority_of target headers = elim (absolute_authority target) [
  | some authority ↦ some authority
  | none ↦ header headers (text "host")
]

-- A request line has three parts, and the third names the protocol.
abbrev parse_fields : Text → List Text → Option Request
parse_fields headers (method ∷ target ∷ version ∷ []) =
    if not (starts_with version (text "HTTP/"))
    then none
    else if method == text "CONNECT"
    then request_to Method.connect Body.streamed (split_authority target none)
    else absolute_to headers (authority_of target headers)
parse_fields headers (_ ∷ _ ∷ _ ∷ _ ∷ _) = none
parse_fields headers (_ ∷ _ ∷ []) = none
parse_fields headers (_ ∷ []) = none
parse_fields headers [] = none

abbrev pub space : ℕ
space = 32

abbrev parse_split : Option (Text × Text) → Option Request
parse_split none = none
parse_split (some (line, headers)) = parse_fields headers (split_char space [] line)

unfoldable pub parse_head : Bytes → Option Request
unfolding split_authority absolute_authority body_of split_char starts_with
parse_head head = elim (from_utf8 head) [
  | none ↦ none
  | some read ↦ parse_split (split_once read crlf)
]
