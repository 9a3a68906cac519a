-- ===== src/Check/Demo.antt =====
-- The demonstration of the OpenSSL interface (check_tests/openssl-demo/aesctr.c), from which the
-- tests take the bytes that they expect.
use rd_rand.Prelude.{
  ℕ, not, Option, none, some, List, if◌then◌else◌, length, replicate, take, codes,
}
use rd_rand.Aes.State.{OpenSsl}
use rd_rand.Aes.Keys.{overwrite, zeros}
use rd_rand.Check.{hex2byte}

abbrev pub key_hex : List ℕ
key_hex = codes "c96b8a45affc5c9050378dd32168c381"

-- The upper 64 bits.
abbrev pub nonce_hex : List ℕ
nonce_hex = codes "41e31e41e3f8c26f"

-- A call of `hex2byte` whose code is not looked at, on an array that holds `old`.
unfoldable pub read_hex : (old hex : List ℕ) → (hex_length byte_length : ℕ) → List ℕ
unfolding hex2byte
read_hex old hex hex_length byte_length = elim (hex2byte hex hex_length byte_length) [
  | none ↦ old
  | some (bytes, ok) ↦ overwrite old bytes (length bytes)
]

-- `memset(input, -1, 4096)`, of which 32 bytes are encrypted.
abbrev pub demo_input : List ℕ
demo_input = take 32 (replicate 32 255)

-- `en` and `output` are local variables that are not initialised, with what they hold; the loop ends in
-- its first round. The result is what `mem_dump(output, 32)` prints, or none where `main` returns 1.
unfoldable pub demo_main :
    {Ctx : Type 0} → OpenSsl Ctx → (en : Ctx) → (output : List ℕ) → Option (List ℕ)
unfolding read_hex
demo_main ssl en output =
    let key = read_hex (zeros 16) key_hex 32 16 in
    let nonce_counter = read_hex (zeros 16) nonce_hex 16 8 in
    let (en1, ready) = ssl.cipher_init (ssl.ctx_init en) key nonce_counter in
    let (out, en2, ok) = ssl.encrypt_update en1 demo_input in
    if not ready
    then none
    else if not ok
    then none
    else some (take 32 (overwrite output out (length out)))
