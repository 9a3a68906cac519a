-- ===== src/Aes/Change.antt =====
-- Changing keys: `counter`, `keys_change`, `keys_change_rotation`, `keys_randomize`
-- (src/librdrand-aes.c, lines 468-574).
pub mod Turns
pub mod Renews
use rd_rand.Prelude.{
  ℕ, ◌+◌, ◌-◌, ◌*◌, ◌/◌, ◌%◌, ◌^◌, not, length, Bool, true, false, ◌||◌, Option, none, some, List,
  [], ◌∷◌, if◌then◌else◌, ltb, ◌==◌, get_or, set,
}
use rd_rand.Aes.State.{AesCfg, OpenSsl, KeysType, generated, given, max_counter}
use rd_rand.Aes.Keys.{deref, overwrite, key_to_openssl, key_generate, rand_bytes}

-- The number that a byte string holds, low byte first.
unfoldable pub of_bytes : List ℕ → ℕ
of_bytes [] = 0
of_bytes (b ∷ bs) = b + 256 * of_bytes bs

-- `memcpy(p, src, n)` through a pointer into an array of byte strings.
abbrev pub write_at : List (List ℕ) → Option ℕ → List ℕ → ℕ → List (List ℕ)
write_at bufs none src n = bufs
write_at bufs (some i) src n = set bufs i (overwrite (get_or bufs i []) src n)

-- `((double)buf / UINT_MAX) * MAX_COUNTER` as an unsigned int. The division in `double` is off by less
-- than one part in 2 ^ 52, and `4096 * buf / UINT_MAX` is an integer or 1 / UINT_MAX away from the next,
-- so the integral part is that of the exact quotient.
unfoldable pub scaled : ℕ → ℕ
scaled buf = buf * max_counter / (2 ^ 32 - 1)

-- No key or nonce has this index: a remainder by 0, or an array that is not allocated.
unfoldable pub misses : {Ctx : Type 0} → AesCfg Ctx → ℕ → Bool
misses c index =
    c.amount == 0 || (not (ltb index (length c.keys)) || not (ltb index (length c.nonces)))

module _ {Ctx : Type 0} (ssl : OpenSsl Ctx) where
  -- Both calls of EVP_EncryptUpdate come first, their results unused, then the two writes.
  unfoldable pub rotate : AesCfg Ctx → AesCfg Ctx
  rotate c =
      let (k, en, _) = ssl.encrypt_update c.en (deref c.keys c.key_current) in
      let (n, en', _) = ssl.encrypt_update en (deref c.nonces c.nonce_current) in
      record c {
        en = en';
        keys = write_at c.keys c.key_current k c.key_length;
        nonces = write_at c.nonces c.nonce_current n c.key_length;
      }

  unfoldable pub keys_change_rotation : AesCfg Ctx → AesCfg Ctx × Bool
  keys_change_rotation c = elim c.key_current [ none ↦ (c, false) | some _ ↦ (rotate c, true) ]

  unfoldable pub keys_change : AesCfg Ctx → AesCfg Ctx × Bool
  unfolding keys_change_rotation misses
  keys_change c =
      let index = (c.index + 1) % c.amount in
      let (c', ok) = keys_change_rotation (record c {
        index = index;
        key_current = some index;
        nonce_current = some index;
        crashed = c.crashed || misses c index;
      }) in
      if ok then ((key_to_openssl ssl c').0, true) else (c', false)

  unfoldable pub keys_randomize : AesCfg Ctx → AesCfg Ctx × Bool
  unfolding of_bytes scaled
  keys_randomize c =
      let (got, c') = rand_bytes ssl 4 c in
      elim got [
        | none ↦ (c', false)
        | some buf ↦ (record c' { next_counter = scaled (of_bytes buf % 2 ^ 32) }, true)
      ]

  -- The change of key that `counter` makes; the result of `keys_randomize` is not used.
  unfoldable pub renew : KeysType → AesCfg Ctx → AesCfg Ctx × Bool
  unfolding keys_change keys_randomize key_generate
  renew given c = let (c', ok) = keys_change c in (record c' { next_counter = max_counter }, ok)
  renew generated c = let (c', ok) = key_generate ssl c in ((keys_randomize c').0, ok)

  -- `result` is 0 until a change of key sets it.
  unfoldable pub counter : ℕ → AesCfg Ctx → AesCfg Ctx × Bool
  counter num c =
      if c.next_counter == 0 || ltb c.next_counter num
      then renew c.keys_type c
      else (record c { next_counter = c.next_counter - num }, false)
