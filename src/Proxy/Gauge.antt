-- ===== src/Proxy/Gauge.antt =====
-- A gauge of Prometheus that internal/proxy/tcp.go moves by one: ConnectionsActive. Its value is a
-- whole number here.
use tlspxy.Common.{zero, suc, ◌≡◌, refl}
use tlspxy.Config.Koanf.{ℤ, pos, negsuc}

-- Gauge.Inc and Gauge.Dec.
unfoldable pub inc : ℤ → ℤ
inc (pos n) = pos (suc n)
inc (negsuc zero) = pos 0
inc (negsuc (suc n)) = negsuc n

unfoldable pub dec : ℤ → ℤ
dec (pos zero) = negsuc 0
dec (pos (suc n)) = pos n
dec (negsuc n) = negsuc (suc n)

pub dec-inc : (z : ℤ) → dec (inc z) ≡ z
unfolding dec inc
dec-inc (pos n) = refl
dec-inc (negsuc zero) = refl
dec-inc (negsuc (suc n)) = refl

pub inc-dec : (z : ℤ) → inc (dec z) ≡ z
unfolding dec inc
inc-dec (pos zero) = refl
inc-dec (pos (suc n)) = refl
inc-dec (negsuc n) = refl
