-- ===== src/Gen/KeyFile/Line.antt =====
-- Lines of the key file: what is written is read back.
use rd_rand.Prelude.{
  ℕ, zero, suc, ◌+◌, ◌*◌, ◌/◌, ◌%◌, ◌≤◌, ◌<◌, ◌≡◌, refl, subst, ap, ◌∙◌, arith, true, false, some,
  List, [], ◌∷◌, ◌++◌, length, length-append, drop, if◌then◌else◌, ltb, ◌==◌, append-nil,
}
use rd_rand.Gen.KeyFile.{
  e_ok, newline, is_hex, hex_digit, scan_byte, scan_bytes, hex_to_byte, at_newline, scan_line,
  divide_line, finish_line, load_key_line,
}

-- A hexadecimal digit, and a byte string in hexadecimal form.
unfoldable pub digit_char : ℕ → ℕ
digit_char d = if ltb d 10 then 48 + d else 87 + d

unfoldable pub to_hex : List ℕ → List ℕ
to_hex [] = []
to_hex (b ∷ bs) = digit_char (b / 16) ∷ digit_char (b % 16) ∷ to_hex bs

abbrev pub Bytes : List ℕ → Type 0
Bytes [] = Unit {0}
Bytes (b ∷ bs) = (b < 256) × Bytes bs

pub length-to_hex : (bs : List ℕ) → length (to_hex bs) ≡ 2 * length bs
unfolding to_hex
length-to_hex [] = refl
length-to_hex (b ∷ bs) = omega (arith, length-to_hex bs)

hex_digit-digit_char : (d : ℕ) → d < 16 → hex_digit (digit_char d) ≡ some d
unfolding hex_digit digit_char
hex_digit-digit_char d small = ground arith

is_hex-digit_char : (d : ℕ) → d < 16 → is_hex (digit_char d) ≡ true
unfolding is_hex digit_char
is_hex-digit_char d small = ground arith

scan_byte-to_hex :
    (b : ℕ) (cs : List ℕ)
    → b < 256
    → scan_byte (digit_char (b / 16) ∷ digit_char (b % 16) ∷ cs) ≡ some b
unfolding scan_byte
scan_byte-to_hex b cs small =
    let e : 16 * (b / 16) + b % 16 ≡ b = omega arith in
    rw (scan_byte, hex_digit-digit_char (b / 16) (omega arith))
      (rw (hex_digit-digit_char (b % 16) (omega arith)) (ap some e))

scan_bytes-to_hex :
    (bs tail : List ℕ) → Bytes bs → scan_bytes (length bs) (to_hex bs ++ tail) ≡ (bs, true)
unfolding scan_bytes to_hex
scan_bytes-to_hex [] tail bytes = refl
scan_bytes-to_hex (b ∷ bs) tail bytes =
    rw (scan_bytes, scan_byte-to_hex b (to_hex bs ++ tail) bytes.0)
      (rw (scan_bytes-to_hex bs tail bytes.1) refl)

abbrev pub Hex : List ℕ → Type 0
Hex [] = Unit {0}
Hex (c ∷ cs) = (is_hex c ≡ true) × Hex cs

Hex-to_hex : (bs cs : List ℕ) → Bytes bs → Hex cs → Hex (to_hex bs ++ cs)
unfolding to_hex
Hex-to_hex [] cs bytes hex = hex
Hex-to_hex (b ∷ bs) cs bytes hex = (
  is_hex-digit_char (b / 16) (omega (arith, bytes.0)),
  (is_hex-digit_char (b % 16) (omega arith), Hex-to_hex bs cs bytes.1 hex),
)

hex_not_newline : (c : ℕ) → is_hex c ≡ true → (c == newline) ≡ false
unfolding is_hex
hex_not_newline c hex = ground arith

pub scan_line-Hex :
    (i : ℕ) (cs rest : List ℕ)
    → Hex cs
    → i + length cs ≤ 65
    → scan_line i (cs ++ newline ∷ rest) ≡ record { stop = at_newline; chars = cs; rest = rest }
unfolding scan_line
scan_line-Hex i [] rest hex short = refl
scan_line-Hex i (c ∷ cs) rest hex short =
    let room : ltb 64 i ≡ false = ground arith in
    rw (hex_not_newline c hex.0, hex.0, room, scan_line-Hex (i + 1) cs rest hex.1 (omega arith))
      refl

drop_append : (n : ℕ) (xs ys : List ℕ) → length xs ≡ n → drop n (xs ++ ys) ≡ ys
drop_append zero [] ys e = refl
drop_append zero (x ∷ xs) ys e = absurd (omega arith)
drop_append (suc n) [] ys e = absurd (omega arith)
drop_append (suc n) (x ∷ xs) ys e = drop_append n xs ys (omega arith)

hex_to_byte-to_hex :
    (bs tail : List ℕ) (n : ℕ)
    → Bytes bs
    → n ≡ length bs
    → hex_to_byte (to_hex bs ++ tail) (2 * n) n ≡ (bs, true)
unfolding hex_to_byte
hex_to_byte-to_hex bs tail n bytes e =
    let same : (2 * n == 2 * n) ≡ true = ground arith in
    rw (hex_to_byte, same, e) (scan_bytes-to_hex bs tail bytes)

divide_line-to_hex :
    (key nonce rest : List ℕ)
    → Bytes key
    → Bytes nonce
    → length key ≡ 2 * length nonce
    → 0 < length nonce
    → let chars = to_hex key ++ to_hex nonce in
      divide_line false (record { stop = at_newline; chars = chars; rest = rest }) ≡ record {
        result = e_ok;
        key = key;
        key_len = some (length key);
        nonce = nonce;
        nonce_len = some (length nonce);
        file = rest;
        buf = chars;
      }
unfolding divide_line
divide_line-to_hex key nonce rest key_bytes nonce_bytes twice some_nonce =
    let n = length nonce in
    let k = length key in
    let hex_key = length-to_hex key in
    let chars : List ℕ = to_hex key ++ to_hex nonce in
    let i : length chars ≡ 2 * k + 2 * n =
      omega (arith, length-append (to_hex key) (to_hex nonce), hex_key, length-to_hex nonce) in
    let kl : length chars / 3 * 2 ≡ 2 * k = omega arith in
    let nl : length chars / 3 ≡ 2 * n = omega arith in
    let half_key : 2 * k / 2 ≡ k = omega arith in
    let half_nonce : 2 * n / 2 ≡ n = omega arith in
    let whole : (2 * k + 2 * n == 2 * k + 2 * n) ≡ true = ground arith in
    let some_key : (2 * k == 0) ≡ false = ground arith in
    let none_behind : to_hex nonce ++ [] ≡ to_hex nonce = append-nil (to_hex nonce) in
    let nonce_read =
      subst (λ t. hex_to_byte t (2 * n) n ≡ (nonce, true)) none_behind
        (hex_to_byte-to_hex nonce [] n nonce_bytes refl) in
    rw
      (
        divide_line,
        kl,
        nl,
        i,
        half_key,
        half_nonce,
        drop_append (2 * k) (to_hex key) (to_hex nonce) hex_key,
        whole,
        some_key,
        hex_to_byte-to_hex key (to_hex nonce) k key_bytes refl,
        nonce_read,
      )
      refl

-- A key of an even number of bytes and a nonce of half as many, of one byte at least and ten at most
-- (so that the line has no more than 64 characters), written in hexadecimal digits are read back: `load_key_line` succeeds, stores the key and the
-- nonce with their lengths, and leaves the file behind the line.
pub load_key_line-to_hex :
    (key nonce rest : List ℕ)
    → Bytes key
    → Bytes nonce
    → length key ≡ 2 * length nonce
    → 0 < length nonce
    → length nonce ≤ 10
    → load_key_line (to_hex key ++ to_hex nonce ++ newline ∷ rest) ≡ record {
      result = e_ok;
      key = key;
      key_len = some (length key);
      nonce = nonce;
      nonce_len = some (length nonce);
      file = rest;
      buf = to_hex key ++ to_hex nonce;
    }
unfolding load_key_line finish_line
load_key_line-to_hex key nonce rest key_bytes nonce_bytes twice some_nonce short =
    let hex_nonce : Hex (to_hex nonce) =
      subst Hex (append-nil (to_hex nonce)) (Hex-to_hex nonce [] nonce_bytes tt) in
    let i : 0 + length (to_hex key ++ to_hex nonce) ≤ 65 =
      omega (
        arith,
        length-append (to_hex key) (to_hex nonce),
        length-to_hex key,
        length-to_hex nonce,
      ) in
    ap finish_line (
      scan_line-Hex 0 (to_hex key ++ to_hex nonce) rest
        (Hex-to_hex key (to_hex nonce) key_bytes hex_nonce) i)
    ∙ divide_line-to_hex key nonce rest key_bytes nonce_bytes twice some_nonce
