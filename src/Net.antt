-- ===== src/Net.antt =====
-- `std::net::IpAddr` with its derived equality and order: every IPv4 address is below every IPv6
-- address, and those of one family compare as numbers.
pub mod Order
use rustmote.Prelude.{ℕ, ◌≡◌, ◌↔◌, Bool, true, false, ltb, ◌==◌, arith}

pub data IpAddr : Type 0 where
  v4 : ℕ → IpAddr
  v6 : ℕ → IpAddr

unfoldable pub ip_eq : IpAddr → IpAddr → Bool
ip_eq (v4 a) (v4 b) = a == b
ip_eq (v4 a) (v6 b) = false
ip_eq (v6 a) (v4 b) = false
ip_eq (v6 a) (v6 b) = a == b

unfoldable pub ip_lt : IpAddr → IpAddr → Bool
ip_lt (v4 a) (v4 b) = ltb a b
ip_lt (v4 a) (v6 b) = true
ip_lt (v6 a) (v4 b) = false
ip_lt (v6 a) (v6 b) = ltb a b

pub ip_eq_iff : (a b : IpAddr) → (ip_eq a b ≡ true) ↔ (a ≡ b)
unfolding ip_eq
ip_eq_iff (v4 a) (v4 b) = ground arith
ip_eq_iff (v4 a) (v6 b) = ground arith
ip_eq_iff (v6 a) (v4 b) = ground arith
ip_eq_iff (v6 a) (v6 b) = ground arith
