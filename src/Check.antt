-- ===== src/Check.antt =====
-- The unit tests (check_tests). A test is a Boolean: whether all its assertions hold. Here are the
-- tests on byte ranges of check_tests/check_rdrand.c, lines 48-98, and its local arrays.
pub mod Ranges
pub mod Steps
pub mod Arrays
pub mod Library
pub mod Keys
pub mod Demo
pub mod Output
pub mod Options
pub mod Runs
pub mod Cipher
use rd_rand.Prelude.{
  ℕ, zero, suc, ◌+◌, ◌-◌, ◌*◌, Bool, true, false, ◌&&◌, ◌||◌, if◌then◌else◌, ltb, ◌==◌, Option,
  none, some, List, [], ◌∷◌, replicate, take,
}
use rd_rand.Memory.{Mem, Machine, store_bytes}
use rd_rand.Gen.KeyFile.{scan_bytes}

-- `unsigned char dst[size] = {0}`, at an address.
unfoldable pub zeroed : (size dst : ℕ) → Machine → Machine
zeroed size dst m = record m { mem = store_bytes m.mem dst (replicate size 0) }

-- The `for` loop of both tests: `left` is `to - i`, and `errs` counts the bytes that differ.
unfoldable pub count_errs : Mem → (byte arr left i errs : ℕ) → ℕ
count_errs m byte arr zero i errs = errs
count_errs m byte arr (suc left) i errs =
    count_errs m byte arr left (i + 1) (if m (arr + i) == byte then errs else errs + 1)

unfoldable pub test_bytes : Mem → (byte arr arr_size from to : ℕ) → Bool
unfolding count_errs
test_bytes m byte arr arr_size from to =
    if ltb to from || ltb arr_size to then false else count_errs m byte arr (to - from) from 0 == 0

unfoldable pub test_zeros : Mem → (arr arr_size from to : ℕ) → Bool
unfolding test_bytes
test_zeros m = test_bytes m 0

unfoldable pub test_ones : Mem → (arr arr_size from to : ℕ) → Bool
unfolding test_bytes
test_ones m = test_bytes m 255

unfoldable pub equal_bytes : List ℕ → List ℕ → Bool
equal_bytes [] [] = true
equal_bytes [] (b ∷ bs) = false
equal_bytes (a ∷ as_left) [] = false
equal_bytes (a ∷ as_left) (b ∷ bs) = a == b && equal_bytes as_left bs

-- `memcmp(a, b, n) == 0`.
unfoldable pub same_memory : List ℕ → List ℕ → ℕ → Bool
unfolding equal_bytes
same_memory a b n = equal_bytes (take n a) (take n b)

-- `hex2byte` of check_tests/tools.c: the bytes that were stored, and whether 0 was returned. The
-- assertion on the lengths ends the program: none.
unfoldable pub hex2byte : List ℕ → (hex_length byte_length : ℕ) → Option (List ℕ × Bool)
hex2byte hex hex_length byte_length =
    if hex_length == 2 * byte_length then some (scan_bytes byte_length hex) else none
