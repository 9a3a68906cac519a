-- ===== src/Memory.antt =====
-- Memory as the library writes it: bytes at addresses, and numbers stored with the low byte first.
-- The library only writes to the buffers that it is given, so every address holds a byte.
pub mod Store
use rd_rand.Prelude.{ℕ, zero, suc, ◌+◌, ◌/◌, ◌%◌, List, [], ◌∷◌, ◌++◌, ◌==◌, if◌then◌else◌}

abbrev pub Mem : Type 0
Mem = ℕ → ℕ

unfoldable pub store_byte : Mem → ℕ → ℕ → Mem
store_byte m a v p = if p == a then v else m p

-- `memcpy(a, bytes, n)`, the bytes given as a list.
unfoldable pub store_bytes : Mem → ℕ → List ℕ → Mem
store_bytes m a [] = m
store_bytes m a (b ∷ bs) = store_bytes (store_byte m a b) (a + 1) bs

-- The `n` bytes of a number, as x86 stores them.
unfoldable pub le_bytes : ℕ → ℕ → List ℕ
le_bytes zero x = []
le_bytes (suc n) x = x % 256 ∷ le_bytes n (x / 256)

-- An array of 64-bit numbers.
unfoldable pub words : List ℕ → List ℕ
words [] = []
words (x ∷ xs) = le_bytes 8 x ++ words xs

-- What the functions of the library change: how often RDRAND has been executed, the memory, and the
-- microseconds spent in `usleep`.
pub record Machine : Type 0 where
  pub ticks : ℕ
  pub mem : Mem
  pub slept : ℕ
