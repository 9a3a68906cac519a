-- ===== src/Gen/LoadKeys.antt =====
-- `load_keys` (src/rdrand-gen.c, lines 686-760). The file is the list of its characters, or none where
-- it cannot be opened; `malloc k` says whether the k-th round gets both of its strings.
pub mod Returns
pub mod Written
use rd_rand.Prelude.{
  ℕ, zero, suc, ◌+◌, Bool, true, false, not, ◌||◌, Option, none, some, List, [], ◌∷◌, ◌++◌, length,
  if◌then◌else◌, ltb, ◌==◌,
}
use rd_rand.Aes.State.{AesCfg, OpenSsl, rdrand_max_key_length, rdrand_min_key_length}
use rd_rand.Aes.Keys.{rdrand_set_aes_keys}
use rd_rand.Gen.KeyFile.{
  FileErrors, e_ok, e_eof, e_error, e_key_nonce_bad_length, e_key_invalid_character, KeyLine,
  load_key_line,
}

abbrev pub max_keys : ℕ
max_keys = 128

-- The result of the loop, `e_ok` where it ends with `break`, and the keys so far: `amount` is the length
-- of both arrays, and `overrun` is set where a string is stored behind the end of `keys[MAX_KEYS]` and
-- `nonces[MAX_KEYS]`.
pub record Loaded : Type 0 where
  pub result : FileErrors
  pub first_len : ℕ
  pub keys : List (List ℕ)
  pub nonces : List (List ℕ)
  pub overrun : Bool

abbrev pub key_len_of : KeyLine → ℕ
key_len_of l = elim l.key_len [ none ↦ 0 | some n ↦ n ]

-- The test of a line that is not empty, with the length of the first key.
unfoldable pub bad_key : (first_len key_len : ℕ) → Bool
bad_key first_len key_len =
    ltb rdrand_max_key_length key_len
    || (ltb key_len rdrand_min_key_length || not (first_len == key_len))

-- What a line adds: an empty line nothing, another its key and nonce.
unfoldable pub add_line : KeyLine → Loaded → Loaded
add_line l s =
    let key_len = key_len_of l in
    let first_len = if s.first_len == 0 then key_len else s.first_len in
    let added : Loaded = record {
      result = e_ok;
      first_len = first_len;
      keys = s.keys ++ l.key ∷ [];
      nonces = s.nonces ++ l.nonce ∷ [];
      overrun = s.overrun || not (ltb (length s.keys) max_keys);
    } in
    if key_len == 0
    then s
    else if bad_key first_len key_len
    then record s { result = e_key_nonce_bad_length }
    else added

-- The result that ends the loop, or none.
unfoldable pub ends : FileErrors → Option FileErrors
ends e_ok = none
ends e_eof = some e_ok
ends e_error = some e_error
ends e_key_nonce_bad_length = some e_key_nonce_bad_length
ends e_key_invalid_character = some e_key_invalid_character

-- The `while` loop; none where the fuel is too little.
unfoldable pub load_loop : (malloc : ℕ → Bool) → (fuel k : ℕ) → List ℕ → Loaded → Option Loaded
load_loop malloc zero k file s = none
load_loop malloc (suc fuel) k file s =
    let l = load_key_line file in
    let s' = add_line l s in
    let rest = load_loop malloc fuel (k + 1) l.file s' in
    if not (malloc k) then some (record s { result = e_error }) else elim (ends l.result) [
      | some e ↦ some (record s { result = e })
      | none ↦ elim (ends s'.result) [ some e ↦ some s' | none ↦ rest ]
    ]

abbrev pub nothing_loaded : Loaded
nothing_loaded = record { result = e_ok; first_len = 0; keys = []; nonces = []; overrun = false }

-- How `load_keys` ends: it ends the program, returns, or has stored behind the end of its arrays, after
-- which nothing is known of it.
pub data Outcome : Type 0 where
  exits overruns : Outcome
  returns : FileErrors → Outcome

module _ {Ctx : Type 0} (ssl : OpenSsl Ctx) (malloc_keys malloc_nonces : Bool) where
  -- After the loop.
  unfoldable pub use_keys : AesCfg Ctx → Loaded → FileErrors × AesCfg Ctx
  use_keys c s =
      let amount = length s.keys in
      let (c', ok) =
        rdrand_set_aes_keys ssl malloc_keys malloc_nonces amount s.first_len s.keys s.nonces c in
      elim s.result [
        | e_ok ↦
            if amount == 0
            then (e_key_nonce_bad_length, c)
            else if ok
            then (e_ok, c')
            else (e_key_nonce_bad_length, c')
        | e ↦ (e, c)
      ]

  -- A round reads a character at least, or ends the loop at the end of the file.
  unfoldable pub load_keys :
      (malloc : ℕ → Bool) → Option (List ℕ) → AesCfg Ctx → Outcome × AesCfg Ctx
  load_keys malloc none c = (exits, c)
  load_keys malloc (some file) c =
      elim (load_loop malloc (suc (length file)) 0 file nothing_loaded) [
        | none ↦ (exits, c)
        | some s ↦
            let (e, c') = use_keys c s in if s.overrun then (overruns, c) else (returns e, c')
      ]
