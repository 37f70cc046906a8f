-- ===== src/Routing/Address.antt =====
-- What internal/routing uses of Go's `net/netip`: addresses, prefixes and their arithmetic. The
-- parsers and printers of their texts are operations of the record `Netip`.
pub mod Mapped
pub mod Masks
use wg.Prelude.{ℕ, ◌-◌, ◌*◌, ◌/◌, ◌%◌, ◌^◌, Bool, false, ◌&&◌, Option, [], ◌==◌, if◌then◌else◌}
use wg.Text.{Text, is_empty}

-- An address of IPv6 has a zone, which is mostly empty.
pub data Addr : Type 0 where
  v4 : ℕ → Addr
  v6 : ℕ → Text → Addr

pub record Prefix : Type 0 where
  pub addr : Addr
  pub bits : ℕ

pub record Netip : Type 0 where
  pub parse_addr : Text → Option Addr
  pub parse_prefix : Text → Option Prefix
  pub show_addr : Addr → Text
  pub show_prefix : Prefix → Text

abbrev pub is_4in6 : Addr → Bool
is_4in6 (v4 n) = false
is_4in6 (v6 n zone) = n / 2 ^ 32 == 0xFFFF

unfoldable pub unmap : Addr → Addr
unmap (v4 n) = v4 n
unmap (v6 n zone) = if n / 2 ^ 32 == 0xFFFF then v4 (n % 2 ^ 32) else v6 n zone

abbrev pub width : Addr → ℕ
width (v4 n) = 32
width (v6 n zone) = 128

-- A number with its lowest `k` binary digits cleared.
abbrev pub clear_low : ℕ → ℕ → ℕ
clear_low k n = n / 2 ^ k * 2 ^ k

abbrev pub mask_addr : Addr → ℕ → Addr
mask_addr (v4 n) bits = v4 (clear_low (32 - bits) n)
mask_addr (v6 n zone) bits = v6 (clear_low (128 - bits) n) []

unfoldable pub masked : Prefix → Prefix
masked p = record { addr = mask_addr p.addr p.bits; bits = p.bits }

-- `Contains`: the same family, no zone, and the same highest `bits` binary digits.
abbrev pub same_network : Addr → ℕ → Addr → Bool
same_network (v4 n) bits (v4 m) = n / 2 ^ (32 - bits) == m / 2 ^ (32 - bits)
same_network (v6 n zone) bits (v6 m zone') =
    is_empty zone' && n / 2 ^ (128 - bits) == m / 2 ^ (128 - bits)
same_network (v4 n) bits (v6 m zone) = false
same_network (v6 n zone) bits (v4 m) = false

unfoldable pub contains : Prefix → Addr → Bool
contains p a = same_network p.addr p.bits a
