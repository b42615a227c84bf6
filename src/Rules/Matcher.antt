-- ===== src/Rules/Matcher.antt =====
-- nhop/src/rules/matcher.rs: the right-hand side of a rule. A rejected value keeps the kind and the
-- value that its message is formatted from.
use nhop.Common.{
  ℕ, Bool, true, false, ◌||◌, Option, none, some, [], ◌∷◌, ◌==◌, nat_eq, list_eq, any,
  if◌then◌else◌, Result, ok, err,
}
use nhop.Net.{IpAddr, Platform}
use nhop.Text.{
  Text, text, dot, is_whitespace, to_lowercase, without_dot, strip_suffix, starts_with, ends_with,
  contains,
}
use nhop.Text.Numbers.{parse_u16}
use nhop.Wire.{Host, Port, RuleKind, RuleValue, ErrKind}

pub record InvalidRule : Type 0 where
  pub kind : RuleKind
  pub value : RuleValue
  pub expected : Text

abbrev pub err_kind : InvalidRule → ErrKind
err_kind failure = ErrKind.invalid_args

pub record NormalizedHost : Type 0 where
  pub host : Text
  pub address : Option IpAddr

pub data Matcher (N : Type 0) : Type 0 where
  suffix : Text → Matcher N
  cidr : N → Matcher N
  port : Port → Matcher N
  keyword : Text → Matcher N

abbrev star : ℕ
star = 42

abbrev invalid : RuleKind → RuleValue → Text → InvalidRule
invalid kind value expected = record { kind = kind; value = value; expected = expected }

-- `Suffix::matches` and `Keyword::matches`.
unfoldable pub suffix_matches : Text → NormalizedHost → Bool
suffix_matches s h =
    if h.host == s
    then true
    else elim (strip_suffix h.host s) [ none ↦ false | some head ↦ ends_with head (dot ∷ []) ]

unfoldable pub keyword_matches : Text → NormalizedHost → Bool
keyword_matches k h = contains h.host k

module _ {N : Type 0} (p : Platform N) where
  unfoldable pub lowercase : Text → Text
  unfolding to_lowercase
  lowercase s = to_lowercase p.unicode_lowercase s

  unfoldable pub normalized : Host → NormalizedHost
  normalized host =
      let host' = lowercase (without_dot host) in
      record { host = host'; address = p.parse_ip host' }

  unfoldable pub parse_suffix : RuleValue → Result InvalidRule Text
  parse_suffix value =
      let s = lowercase (without_dot value) in
      if s == [] || any is_whitespace s || starts_with s (dot ∷ []) || contains s (star ∷ [])
      then err (invalid RuleKind.suffix value (text "a hostname such as example.com"))
      else ok s

  unfoldable pub parse_keyword : RuleValue → Result InvalidRule Text
  parse_keyword value =
      let s = lowercase value in
      if s == [] || any is_whitespace s
      then err (invalid RuleKind.keyword value (text "a non-empty substring of a hostname"))
      else ok s

  unfoldable pub parse_network : RuleValue → Result InvalidRule N
  parse_network value = elim (p.parse_network value) [
    | none ↦ err (invalid RuleKind.cidr value (text "a network such as 192.0.2.0/24"))
    | some network ↦ ok network
  ]

unfoldable pub parse_port : RuleValue → Result InvalidRule Port
parse_port value = elim (parse_u16 value) [
  | none ↦ err (
      invalid RuleKind.port value
        (text "a single port between 0 and 65535, ranges are not supported"))
  | some n ↦ ok n
]

abbrev map_ok {ℓ κ ι} : {E : Type κ} {A : Type ℓ} {B : Type ι} → (A → B) → Result E A → Result E B
map_ok f (ok a) = ok (f a)
map_ok f (err e) = err e

module _ {N : Type 0} (p : Platform N) where
  unfoldable pub parse : RuleKind → RuleValue → Result InvalidRule (Matcher N)
  unfolding parse_suffix parse_network parse_port parse_keyword
  parse RuleKind.suffix value = map_ok Matcher.suffix (parse_suffix p value)
  parse RuleKind.cidr value = map_ok Matcher.cidr (parse_network p value)
  parse RuleKind.port value = map_ok Matcher.port (parse_port value)
  parse RuleKind.keyword value = map_ok Matcher.keyword (parse_keyword p value)

  unfoldable pub matches : Matcher N → NormalizedHost → Port → Bool
  unfolding suffix_matches keyword_matches
  matches (Matcher.suffix s) h n = suffix_matches s h
  matches (Matcher.cidr network) h n = elim h.address [
    | none ↦ false
    | some address ↦ p.network_contains network address
  ]
  matches (Matcher.port expected) h n = expected == n
  matches (Matcher.keyword k) h n = keyword_matches k h

unfoldable pub kind : {N : Type 0} → Matcher N → RuleKind
kind (Matcher.suffix s) = RuleKind.suffix
kind (Matcher.cidr network) = RuleKind.cidr
kind (Matcher.port n) = RuleKind.port
kind (Matcher.keyword k) = RuleKind.keyword
