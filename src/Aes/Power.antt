-- ===== src/Aes/Power.antt =====
-- `isPowerOfTwo` (src/librdrand-aes.c, lines 51-59): `x && (x & (x - 1)) == 0`.
pub mod Law
use rd_rand.Prelude.{ℕ, ◌-◌, Bool, not, ◌&&◌, ◌==◌, bit_and}

unfoldable pub is_power_of_two : ℕ → Bool
is_power_of_two x = not (x == 0) && bit_and x (x - 1) == 0
