-- ===== src/Tests/Addresses.antt =====
-- Tests of `is_ip` (src/core/util.cpp).
use minbif.Prelude.{◌≡◌, refl, true, false, codes}
use minbif.Result.{ok, err, undefined}
use minbif.Ip.{is_ip, is_ip_loop, strtol, is_byte}

is_ip_address : is_ip (codes "127.0.0.1") ≡ ok true
unfolding is_ip is_ip_loop strtol is_byte
is_ip_address = refl

is_ip_host : is_ip (codes "1.2.3.example") ≡ ok false
unfolding is_ip is_ip_loop strtol is_byte
is_ip_host = refl

-- A text that ends too early is read behind its end.
is_ip_short : is_ip (codes "1.2") ≡ err undefined
unfolding is_ip is_ip_loop strtol is_byte
is_ip_short = refl

-- 2 ^ 32 + 1 counts as 1.
is_ip_wraps : is_ip (codes "4294967297.0.0.1") ≡ ok true
unfolding is_ip is_ip_loop strtol is_byte
is_ip_wraps = refl
