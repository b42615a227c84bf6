-- ===== src/Cli/SystemProxy/Parsed.antt =====
-- nhop/src/cli/system_proxy.rs: reading back a report of networksetup, and what any report gives.
use nhop.Common.{
  list_same, ℕ, ◌<◌, ◌^◌, ◌≡◌, refl, ap, ◌∙◌, sym, arith, Bool, true, false, Option, none, some,
  List, [], ◌∷◌, ◌++◌, all, if◌then◌else◌, Option-cases, inl, inr, ◌≢◌,
}
use nhop.Text.{Text, text, trim}
use nhop.Text.Numbers.{show, parse_u16, parse_unsigned-show, parse_unsigned-lt, u16_bound}
use nhop.Text.Splits.{split_once, lines}
use nhop.Cli.SystemProxy.{
  ProxyEndpoint, Fields, fields, parse, unread, endpoint, line_read, field, or_zero,
}
use nhop.Cli.SystemProxy.Lines.{solid, inline, all-inline, lines-first, trim-space, show-solid}

abbrev yes_or_no : Bool → Text
yes_or_no true = text "Yes"
yes_or_no false = text "No"

abbrev last_line : Text
last_line = text "Authenticated Proxy Enabled: 0"

-- A report as networksetup writes it.
abbrev pub printed : Bool → Text → ℕ → Text
printed on host port =
    (text "Enabled: " ++ yes_or_no on)
    ++ 10
      ∷ ((text "Server: " ++ host)
          ++ 10 ∷ ((text "Port: " ++ show port) ++ 10 ∷ (last_line ++ 10 ∷ [])))

server_read :
    (st : Fields) (host : Text)
    → all solid host ≡ true
    → line_read st (split_once (text "Server: " ++ host) (text ":")) ≡ record st { host = host }
unfolding split_once trim nhop.Common.list_same
server_read st host h = ap (λ (v : Text). record st { host = v }) (trim-space host h)

port_read :
    (st : Fields) (port : ℕ)
    → port < 2 ^ 16
    → line_read st (split_once (text "Port: " ++ show port) (text ":")) ≡ record st { port = port }
unfolding split_once trim nhop.Common.list_same parse_u16 nhop.Text.Numbers.parse_unsigned
port_read st port h =
    ap (field st (text "Port")) (trim-space (show port) (show-solid port))
    ∙ ap (λ read. record st { port = or_zero read }) (parse_unsigned-show u16_bound port h)

first_inline : (on : Bool) → all inline (text "Enabled: " ++ yes_or_no on) ≡ true
first_inline true = refl
first_inline false = refl

printed-lines :
    (on : Bool) (host : Text) (port : ℕ)
    → all solid host ≡ true
    → lines [] (printed on host port)
      ≡ (text "Enabled: " ++ yes_or_no on)
        ∷ (text "Server: " ++ host)
        ∷ (text "Port: " ++ show port)
        ∷ last_line
        ∷ []
unfolding lines
printed-lines on host port solid_host =
    lines-first (text "Enabled: " ++ yes_or_no on) _ (first_inline on)
    ∙ ap (λ l. (text "Enabled: " ++ yes_or_no on) ∷ l)
        (lines-first (text "Server: " ++ host) _ (all-inline host solid_host)
          ∙ ap (λ l. (text "Server: " ++ host) ∷ l)
              (lines-first (text "Port: " ++ show port) _ (all-inline (show port) (show-solid port))
                ∙ ap (λ l. (text "Port: " ++ show port) ∷ l) (lines-first last_line [] refl)))

enabled_read :
    (on : Bool)
    → line_read unread (split_once (text "Enabled: " ++ yes_or_no on) (text ":"))
      ≡ record { enabled = on; host = []; port = 0 }
unfolding split_once trim list_same
enabled_read true = refl
enabled_read false = refl

last_read : (st : Fields) → line_read st (split_once last_line (text ":")) ≡ st
unfolding split_once trim list_same
last_read st = refl

rest_read :
    (on : Bool) (host : Text) (port : ℕ)
    → all solid host ≡ true
    → port < 2 ^ 16
    → fields unread (lines [] (printed on host port))
      ≡ record { enabled = on; host = host; port = port }
unfolding fields
rest_read on host port solid_host h = rw (printed-lines on host port solid_host) (
    rw (enabled_read on) (
      rw (server_read (record { enabled = on; host = []; port = 0 }) host solid_host) (
        rw (port_read (record { enabled = on; host = host; port = 0 }) port h)
          (last_read (record { enabled = on; host = host; port = port })))))

-- A report of networksetup with a server and a port is read back: the endpoint where the setting
-- is on, nothing where it is off.
pub parse-printed :
    (on : Bool) (c : ℕ) (host : Text) (port : ℕ)
    → all solid (c ∷ host) ≡ true
    → 0 < port
    → port < 2 ^ 16
    → parse (printed on (c ∷ host) port)
      ≡ (if on then some (record { host = c ∷ host; port = port }) else none)
unfolding parse
parse-printed on c host port solid_host positive h =
    ap endpoint (rest_read on (c ∷ host) port solid_host h) ∙ ground arith

port_small_of : (v : Text) (read : Option ℕ) → parse_u16 v ≡ read → or_zero read < 2 ^ 16
unfolding parse_u16
port_small_of v none e = omega arith
port_small_of v (some port) e = parse_unsigned-lt u16_bound v (omega arith) e

port_small : (v : Text) → or_zero (parse_u16 v) < 2 ^ 16
port_small v = port_small_of v (parse_u16 v) refl

field_small :
    (st : Fields) (name value : Text) → st.port < 2 ^ 16 → (field st name value).port < 2 ^ 16
field_small st name value h = ground (arith, port_small value)

line_small :
    (st : Fields) (split : Option (Text × Text))
    → st.port < 2 ^ 16
    → (line_read st split).port < 2 ^ 16
line_small st none h = h
line_small st (some (name, value)) h = field_small st (trim name) (trim value) h

fields_small : (st : Fields) (ls : List Text) → st.port < 2 ^ 16 → (fields st ls).port < 2 ^ 16
unfolding fields
fields_small st [] h = h
fields_small st (line ∷ ls) h =
    let split = split_once line (text ":") in
    fields_small (line_read st split) ls (line_small st split h)

-- Whatever networksetup prints, an endpoint that is read from it has a host that is not empty and
-- a port between 1 and 65535.
pub parse-InRange :
    (reported : Text) {e : ProxyEndpoint}
    → parse reported ≡ some e
    → (e.host ≢ []) × (0 < e.port) × (e.port < 2 ^ 16)
unfolding parse
parse-InRange reported h = ground (arith, fields_small unread (lines [] reported) (omega arith))
