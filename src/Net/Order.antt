-- ===== src/Net/Order.antt =====
-- The order of `IpAddr` is a strict total order.
use rustmote.Prelude.{◌≡◌, true, false, arith}
use rustmote.Net.{IpAddr, v4, v6, ip_eq, ip_lt}

pub ip_lt_trans : (a b c : IpAddr) → ip_lt a b ≡ true → ip_lt b c ≡ true → ip_lt a c ≡ true
unfolding ip_lt
ip_lt_trans (v4 a) (v4 b) (v4 c) p q = ground arith
ip_lt_trans (v4 a) (v4 b) (v6 c) p q = ground arith
ip_lt_trans (v4 a) (v6 b) (v4 c) p q = ground arith
ip_lt_trans (v4 a) (v6 b) (v6 c) p q = ground arith
ip_lt_trans (v6 a) (v4 b) (v4 c) p q = ground arith
ip_lt_trans (v6 a) (v4 b) (v6 c) p q = ground arith
ip_lt_trans (v6 a) (v6 b) (v4 c) p q = ground arith
ip_lt_trans (v6 a) (v6 b) (v6 c) p q = ground arith

pub ip_lt_total : (a b : IpAddr) → ip_eq a b ≡ false → ip_lt a b ≡ false → ip_lt b a ≡ true
unfolding ip_lt ip_eq
ip_lt_total (v4 a) (v4 b) p q = ground arith
ip_lt_total (v4 a) (v6 b) p q = ground arith
ip_lt_total (v6 a) (v4 b) p q = ground arith
ip_lt_total (v6 a) (v6 b) p q = ground arith

pub ip_lt_ne : (a b : IpAddr) → ip_lt a b ≡ true → ip_eq a b ≡ false
unfolding ip_lt ip_eq
ip_lt_ne (v4 a) (v4 b) p = ground arith
ip_lt_ne (v4 a) (v6 b) p = ground arith
ip_lt_ne (v6 a) (v4 b) p = ground arith
ip_lt_ne (v6 a) (v6 b) p = ground arith
