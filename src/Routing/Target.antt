-- ===== src/Routing/Target.antt =====
-- Actions and targets of internal/routing/routing.go, from their texts.
pub mod Domain
pub mod Canonical
use wg.Prelude.{
  ℕ, ◌+◌, ◌-◌, Bool, true, false, not, ◌&&◌, ◌||◌, Option, none, some, List, [], ◌∷◌, ◌++◌, length,
  ltb, leb, ◌==◌, if◌then◌else◌, Result, ok, err, ◌>>=◌, ◌>>◌, fail_if,
}
use wg.Prelude.Equality.{◌=?◌}
use wg.Text.{
  Text, text_equality, is_empty, trim_space, Unicode, to_lower, to_upper, has_dot, trim_dot,
  byte_length, contains_rune, split,
}
use wg.Routing.Address.{Addr, v4, v6, Prefix, Netip, is_4in6, unmap, width, masked}

-- An action is a string in the source, hence `other_action`.
pub data Action : Type 0 where
  tunnel direct block auto : Action
  other_action : Text → Action

-- The error values. Message texts are left out.
pub data RoutingError : Type 0 where
  invalid_action invalid_target auto_rule : RoutingError

abbrev pub valid : Action → Bool
valid (other_action s) = false
valid _ = true

abbrev pub effective : Action → Bool
effective tunnel = true
effective direct = true
effective block = true
effective _ = false

-- The constants of the source, as texts.
abbrev action_of : Text → Action
action_of s =
    if s =? (b'T' ∷ b'U' ∷ b'N' ∷ b'N' ∷ b'E' ∷ b'L' ∷ [])
    then tunnel
    else if s =? (b'D' ∷ b'I' ∷ b'R' ∷ b'E' ∷ b'C' ∷ b'T' ∷ [])
    then direct
    else if s =? (b'B' ∷ b'L' ∷ b'O' ∷ b'C' ∷ b'K' ∷ [])
    then block
    else if s =? (b'A' ∷ b'U' ∷ b'T' ∷ b'O' ∷ [])
    then auto
    else other_action s

unfoldable pub parse_action : Unicode → Text → Result RoutingError Action
parse_action u value = do
  let action = action_of (to_upper u (trim_space value))
  fail_if (not (valid action)) invalid_action
  ok action

pub data TargetKind : Type 0 where
  target_domain target_ip target_cidr : TargetKind

-- The unexported fields have the zero value, `none` here, where they do not apply.
pub record Target : Type 0 where
  pub kind : TargetKind
  pub value : Text
  pub addr : Option Addr
  pub prefix : Option Prefix

-- For a prefix of an IPv4 address in an IPv6 one, of its bits the last 32 count.
unfoldable pub canonical_prefix : Prefix → Result RoutingError Prefix
canonical_prefix p =
    if is_4in6 p.addr
    then (do
      fail_if (ltb p.bits 96 || ltb 128 p.bits) invalid_target
      ok (masked (record { addr = unmap p.addr; bits = p.bits - 96 })))
    else ok (masked p)

abbrev pub is_domain_char : ℕ → Bool
is_domain_char c = (leb b'a' c && leb c b'z') || (leb b'0' c && leb c b'9') || c == b'-'

abbrev pub all_chars : (ℕ → Bool) → Text → Bool
all_chars test [] = true
all_chars test (c ∷ s) = test c && all_chars test s

-- The last code point of a text that is not empty.
abbrev pub last_of : ℕ → Text → ℕ
last_of c [] = c
last_of c (d ∷ s) = last_of d s

unfoldable pub good_label : Text → Bool
good_label [] = false
good_label (c ∷ s) =
    leb (byte_length (c ∷ s)) 63
    && not (c == b'-')
    && not (last_of c s == b'-')
    && all_chars is_domain_char (c ∷ s)

abbrev pub all_labels : List Text → Bool
all_labels [] = true
all_labels (label ∷ labels) = good_label label && all_labels labels

unfoldable pub normalize_domain : Unicode → Text → Result RoutingError Text
normalize_domain u raw = do
  let lowered = to_lower u (trim_space raw)
  let value = if has_dot lowered then trim_dot lowered else lowered
  fail_if (is_empty value || ltb 253 (byte_length value) || has_dot value) invalid_target
  fail_if (not (all_chars (λ c. leb c 127) value)) invalid_target
  fail_if (not (all_labels (split b'.' value))) invalid_target
  ok value

abbrev pub cidr_target : Netip → Prefix → Target
cidr_target net p = record {
  kind = target_cidr;
  value = net.show_prefix p;
  addr = none;
  prefix = some p;
}

abbrev pub ip_target : Netip → Addr → Target
ip_target net a = record { kind = target_ip; value = net.show_addr a; addr = some a; prefix = none }

abbrev pub domain_target : Text → Target
domain_target domain = record { kind = target_domain; value = domain; addr = none; prefix = none }

abbrev parse_cidr_target : Netip → Option Prefix → Result RoutingError Target
parse_cidr_target net none = err invalid_target
parse_cidr_target net (some p) = do p' ← canonical_prefix p; ok (cidr_target net p')

-- The address of a text that parses as one, and else the domain.
abbrev parse_plain_target : Unicode → Netip → Text → Option Addr → Result RoutingError Target
parse_plain_target u net value (some a) = ok (ip_target net (unmap a))
parse_plain_target u net value none = do
  domain ← normalize_domain u value
  ok (domain_target domain)

unfoldable pub parse_target : Unicode → Netip → Text → Result RoutingError Target
parse_target u net raw = do
  let value = trim_space raw
  fail_if (is_empty value) invalid_target
  if contains_rune b'/' value
      then parse_cidr_target net (net.parse_prefix value)
      else parse_plain_target u net value (net.parse_addr value)
