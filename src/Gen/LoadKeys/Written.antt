-- ===== src/Gen/LoadKeys/Written.antt =====
-- A key file that holds written keys is loaded.
use rd_rand.Prelude.{
  ℕ, zero, suc, ◌+◌, ◌*◌, ◌≤◌, ◌<◌, ◌≡◌, ◌⊎◌, inl, inr, refl, sym, ap, ◌∙◌, arith, Bool, true,
  false, Option, none, some, List, [], ◌∷◌, ◌++◌, length, length-append, append_assoc, append-nil,
  if◌then◌else◌, ◌==◌, ltb, lt→ltb,
}
use rd_rand.Aes.State.{AesCfg, OpenSsl}
use rd_rand.Aes.Keys.{rdrand_set_aes_keys}
use rd_rand.Aes.Keys.Accept.{set_aes_keys_accepts}
use rd_rand.Gen.KeyFile.{
  e_ok, e_eof, newline, scan_line, divide_line, finish_line, load_key_line, KeyLine,
}
use rd_rand.Gen.KeyFile.Line.{to_hex, Bytes, load_key_line-to_hex}
use rd_rand.Gen.LoadKeys.{
  Loaded, nothing_loaded, bad_key, key_len_of, add_line, ends, load_loop, returns, use_keys,
  load_keys,
}

-- A line for each key and its nonce.
unfoldable pub key_file : List (List ℕ × List ℕ) → List ℕ
key_file [] = []
key_file ((key, nonce) ∷ ps) = to_hex key ++ to_hex nonce ++ newline ∷ key_file ps

-- Keys of `2 * h` bytes and nonces of `h`.
abbrev pub Written : ℕ → List (List ℕ × List ℕ) → Type 0
Written h [] = Unit {0}
Written h ((key, nonce) ∷ ps) =
    (Bytes key × (Bytes nonce × ((length key ≡ 2 * h) × (length nonce ≡ h)))) × Written h ps

abbrev pub keys_of : List (List ℕ × List ℕ) → List (List ℕ)
keys_of [] = []
keys_of ((key, nonce) ∷ ps) = key ∷ keys_of ps

abbrev pub nonces_of : List (List ℕ × List ℕ) → List (List ℕ)
nonces_of [] = []
nonces_of ((key, nonce) ∷ ps) = nonce ∷ nonces_of ps

length-keys_of : (ps : List (List ℕ × List ℕ)) → length (keys_of ps) ≡ length ps
length-keys_of [] = refl
length-keys_of ((key, nonce) ∷ ps) = ap suc (length-keys_of ps)

length-key_file : (ps : List (List ℕ × List ℕ)) → length ps ≤ length (key_file ps)
unfolding key_file
length-key_file [] = omega arith
length-key_file ((key, nonce) ∷ ps) =
    omega (
      arith,
      length-append (to_hex key ++ to_hex nonce) (newline ∷ key_file ps),
      length-key_file ps,
    )

end_of_file : (load_key_line []).result ≡ e_eof
unfolding load_key_line finish_line scan_line divide_line
end_of_file = refl

load_end :
    (malloc : ℕ → Bool) (fuel k : ℕ) (s : Loaded)
    → malloc k ≡ true
    → load_loop malloc (suc fuel) k [] s ≡ some (record s { result = e_ok })
unfolding load_loop ends
load_end malloc fuel k s room = rw (load_loop, room) (rw end_of_file refl)

load_more :
    (malloc : ℕ → Bool) (fuel k : ℕ) (file : List ℕ) (s : Loaded)
    → malloc k ≡ true
    → ends (load_key_line file).result ≡ none
    → ends (add_line (load_key_line file) s).result ≡ none
    → load_loop malloc (suc fuel) k file s
      ≡ load_loop malloc fuel (k + 1) (load_key_line file).file (add_line (load_key_line file) s)
unfolding load_loop
load_more malloc fuel k file s room line added = rw (load_loop, room) (rw line (rw added refl))

loaded_eq :
    {f f' : ℕ} {ks ks' ns ns' : List (List ℕ)} {o o' : Bool}
    → f ≡ f'
    → ks ≡ ks'
    → ns ≡ ns'
    → o ≡ o'
    → ◌≡◌ {A = Option Loaded}
        (some (record { result = e_ok; first_len = f; keys = ks; nonces = ns; overrun = o }))
        (some (record { result = e_ok; first_len = f'; keys = ks'; nonces = ns'; overrun = o' }))
loaded_eq p q r s =
    λ i. some (record { result = e_ok; first_len = p i; keys = q i; nonces = r i; overrun = s i })

module _ (h : ℕ) (low : 4 ≤ h) (high : h ≤ 8) where
  -- The state with one more key.
  abbrev with_key : List ℕ → List ℕ → Loaded → Loaded
  with_key key nonce s = record {
    result = e_ok;
    first_len = 2 * h;
    keys = s.keys ++ key ∷ [];
    nonces = s.nonces ++ nonce ∷ [];
    overrun = false;
  }

  good_key : bad_key (2 * h) (2 * h) ≡ false
  unfolding bad_key
  good_key = ground arith

  add_line-written :
      (l : KeyLine) (s : Loaded)
      → l.key_len ≡ some (2 * h)
      → (s.first_len ≡ 0) ⊎ (s.first_len ≡ 2 * h)
      → length s.keys < 128
      → s.overrun ≡ false
      → add_line l s ≡ with_key l.key l.nonce s
  unfolding add_line
  add_line-written l s e first space inside =
      let within : ltb (length s.keys) 128 ≡ true = lt→ltb (length s.keys) 128 space in
      let kl : key_len_of l ≡ 2 * h = ap (λ o. elim o [ none ↦ 0 | some n ↦ n ]) e in
      let fl : (if s.first_len == 0 then key_len_of l else s.first_len) ≡ 2 * h = ground arith in
      let some_len : (2 * h == 0) ≡ false = ground arith in
      rw (add_line, fl, kl, some_len, good_key, within, inside) refl

  load_line-written :
      (malloc : ℕ → Bool) (key nonce : List ℕ) (ps : List (List ℕ × List ℕ)) (fuel k : ℕ)
      (s : Loaded)
      → malloc k ≡ true
      → Bytes key × (Bytes nonce × ((length key ≡ 2 * h) × (length nonce ≡ h)))
      → (s.first_len ≡ 0) ⊎ (s.first_len ≡ 2 * h)
      → length s.keys < 128
      → s.overrun ≡ false
      → load_loop malloc (suc fuel) k (key_file ((key, nonce) ∷ ps)) s
        ≡ load_loop malloc fuel (k + 1) (key_file ps) (with_key key nonce s)
  unfolding key_file ends
  load_line-written malloc key nonce ps fuel k s room (key_bytes, (nonce_bytes, (wide, half))) first
        space inside =
      let l : KeyLine = record {
        result = e_ok;
        key = key;
        key_len = some (length key);
        nonce = nonce;
        nonce_len = some (length nonce);
        file = key_file ps;
        buf = to_hex key ++ to_hex nonce;
      } in
      let read : load_key_line (to_hex key ++ to_hex nonce ++ newline ∷ key_file ps) ≡ l =
        load_key_line-to_hex key nonce (key_file ps) key_bytes nonce_bytes (omega arith)
          (omega arith) (omega arith) in
      let added = add_line-written l s (ap some wide) first space inside in
      load_more malloc fuel k _ s room (ap (λ l. ends l.result) read)
        (ap (λ l. ends (add_line l s).result) read ∙ ap (λ t. ends t.result) added)
      ∙ ap (λ l. load_loop malloc fuel (k + 1) l.file (add_line l s)) read
      ∙ ap (λ t. load_loop malloc fuel (k + 1) (key_file ps) t) added

  load_loop-Written :
      (malloc : ℕ → Bool) (ps : List (List ℕ × List ℕ)) (fuel k : ℕ) (s : Loaded)
      → ((i : ℕ) → malloc i ≡ true)
      → Written h ps
      → s.result ≡ e_ok
      → s.first_len ≡ 2 * h
      → length ps < fuel
      → length s.keys + length ps ≤ 128
      → s.overrun ≡ false
      → load_loop malloc fuel k (key_file ps) s
        ≡ some (record {
          result = e_ok;
          first_len = 2 * h;
          keys = s.keys ++ keys_of ps;
          nonces = s.nonces ++ nonces_of ps;
          overrun = false;
        })
  unfolding key_file
  load_loop-Written malloc ps zero k s room written ok first enough space inside =
      absurd (omega arith)
  load_loop-Written malloc [] (suc fuel) k s room written ok first enough space inside =
      load_end malloc fuel k s (room k)
      ∙ loaded_eq first (sym (append-nil s.keys)) (sym (append-nil s.nonces)) inside
  load_loop-Written malloc ((key, nonce) ∷ ps) (suc fuel) k s room written ok first enough space
        inside =
      load_line-written malloc key nonce ps fuel k s (room k) written.0 (inr first) (omega arith)
        inside
      ∙ load_loop-Written malloc ps fuel (k + 1) (with_key key nonce s) room written.1 refl refl
          (omega arith) (omega (arith, length-append s.keys (key ∷ []))) refl
      ∙ loaded_eq refl (append_assoc s.keys (key ∷ []) (keys_of ps))
          (append_assoc s.nonces (nonce ∷ []) (nonces_of ps)) refl

-- A file with a line for each key, written in hexadecimal digits, one key at least and 128 at most, all
-- of 16 bytes with nonces of 8 or all of 8 bytes with nonces of 4 (which the help text does not have),
-- is loaded where allocation succeeds: `load_keys` stores within its arrays, returns `E_OK`, and leaves
-- what `rdrand_set_aes_keys` leaves for these keys and nonces.
pub load_keys-Written :
    {Ctx : Type 0} (ssl : OpenSsl Ctx) (malloc : ℕ → Bool) (h : ℕ) (p : List ℕ × List ℕ)
    (ps : List (List ℕ × List ℕ)) (c : AesCfg Ctx)
    → ((i : ℕ) → malloc i ≡ true)
    → (h ≡ 4) ⊎ (h ≡ 8)
    → Written h (p ∷ ps)
    → length (p ∷ ps) ≤ 128
    → load_keys ssl true true malloc (some (key_file (p ∷ ps))) c ≡ (
      returns e_ok,
      (rdrand_set_aes_keys ssl true true
          (length (p ∷ ps))
          (2 * h)
          (keys_of (p ∷ ps))
          (nonces_of (p ∷ ps))
          c).0,
    )
unfolding load_keys use_keys
load_keys-Written ssl malloc h (key, nonce) ps c room size written few =
    let longer : length ps < length (key_file ((key, nonce) ∷ ps)) =
      omega (arith, length-key_file ((key, nonce) ∷ ps)) in
    let low : 4 ≤ h = omega arith in
    let high : h ≤ 8 = omega arith in
    let file : List ℕ = key_file ((key, nonce) ∷ ps) in
    let read : load_loop malloc (suc (length file)) 0 file nothing_loaded
        ≡ some (record {
          result = e_ok;
          first_len = 2 * h;
          keys = key ∷ keys_of ps;
          nonces = nonce ∷ nonces_of ps;
          overrun = false;
        }) =
      load_line-written h low high malloc key nonce ps (length file) 0 nothing_loaded (room 0)
        written.0 (inl refl) (omega arith) refl
      ∙ load_loop-Written h low high malloc ps (length file) 1 _ room written.1 refl refl
          (omega (arith, longer)) (omega arith) refl in
    let n = length-keys_of ps in
    let some_key : (suc (length ps) == 0) ≡ false = ground arith in
    let accepted =
      (set_aes_keys_accepts ssl true true (suc (length ps)) (2 * h) (key ∷ keys_of ps)
          (nonce ∷ nonces_of ps) c).1
        (omega arith, omega arith, refl, refl) in
    rw (load_keys, read) (rw (n, some_key, accepted) refl)
