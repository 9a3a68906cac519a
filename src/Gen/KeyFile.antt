-- ===== src/Gen/KeyFile.antt =====
-- Reading a line of the key file: `hexToByte` and `load_key_line` (src/rdrand-gen.c, lines 184-205 and
-- 761-822). A file is the list of the characters that are left; sscanf is read for the hexadecimal
-- digits that `load_key_line` lets through.
pub mod Line
pub mod Buffer
use rd_rand.Prelude.{
  ℕ, zero, suc, ◌+◌, ◌-◌, ◌*◌, ◌/◌, Bool, true, false, not, ◌&&◌, ◌||◌, Option, none, some, List,
  [], ◌∷◌, length, drop, if◌then◌else◌, ltb, leb, ◌==◌,
}
use rd_rand.Aes.State.{rdrand_max_key_length}

pub data FileErrors : Type 0 where
  e_ok e_eof e_error e_key_nonce_bad_length e_key_invalid_character : FileErrors

abbrev pub newline : ℕ
newline = 10

-- The test of `load_key_line`: 'a' to 'f', 'A' to 'F', '0' to '9'.
unfoldable pub is_hex : ℕ → Bool
is_hex c = (leb 97 c && leb c 102) || (leb 65 c && leb c 70) || (leb 48 c && leb c 57)

unfoldable pub hex_digit : ℕ → Option ℕ
hex_digit c =
    if leb 97 c && leb c 102
    then some (c - 87)
    else if leb 65 c && leb c 70
    then some (c - 55)
    else if leb 48 c && leb c 57
    then some (c - 48)
    else none

-- `sscanf(hex, "%02x", &n)`: one or two digits.
unfoldable pub scan_byte : List ℕ → Option ℕ
scan_byte [] = none
scan_byte (c ∷ []) = hex_digit c
scan_byte (c ∷ d ∷ cs) = elim (hex_digit c) [
  | none ↦ none
  | some a ↦ elim (hex_digit d) [ none ↦ some a | some b ↦ some (16 * a + b) ]
]

-- The bytes that were stored, and whether the function returned 1.
unfoldable pub scan_bytes : (byte_length : ℕ) → List ℕ → List ℕ × Bool
scan_bytes zero hex = ([], true)
scan_bytes (suc n) hex =
    let (bytes, ok) = scan_bytes n (drop 2 hex) in
    elim (scan_byte hex) [ none ↦ ([], false) | some b ↦ (b ∷ bytes, ok) ]

unfoldable pub hex_to_byte : List ℕ → (hex_length byte_length : ℕ) → List ℕ × Bool
hex_to_byte hex hex_length byte_length =
    if not (hex_length == 2 * byte_length) then ([], false) else scan_bytes byte_length hex

-- How the `while` loop of `load_key_line` ends.
pub data Stop : Type 0 where
  at_newline at_eof too_long invalid_character : Stop

-- The characters stored in `buf`, and the file behind the last character read.
pub record Scan : Type 0 where
  pub stop : Stop
  pub chars : List ℕ
  pub rest : List ℕ

unfoldable pub scan_line : (i : ℕ) → List ℕ → Scan
scan_line i [] = record { stop = at_eof; chars = []; rest = [] }
scan_line i (c ∷ cs) =
    let r = scan_line (i + 1) cs in
    if c == newline
    then record { stop = at_newline; chars = []; rest = cs }
    else if not (is_hex c)
    then record { stop = invalid_character; chars = []; rest = cs }
    else if ltb (rdrand_max_key_length * 2) i
    then record { stop = too_long; chars = []; rest = cs }
    else record r { chars = c ∷ r.chars }

-- The result, what was stored through `key` and `nonce`, their lengths where they were set, the file
-- behind the line, and the characters stored in `buf`.
pub record KeyLine : Type 0 where
  pub result : FileErrors
  pub key : List ℕ
  pub key_len : Option ℕ
  pub nonce : List ℕ
  pub nonce_len : Option ℕ
  pub file : List ℕ
  pub buf : List ℕ

-- After the loop has ended with a newline or at the end of the file; `eof` says which.
unfoldable pub divide_line : (eof : Bool) → Scan → KeyLine
divide_line eof r =
    let i = length r.chars in
    let key_len = i / 3 * 2 in
    let nonce_len = i / 3 in
    let (key, _) = hex_to_byte r.chars key_len (key_len / 2) in
    let (nonce, _) = hex_to_byte (drop key_len r.chars) nonce_len (nonce_len / 2) in
    let early : FileErrors → KeyLine = λ e. record {
      result = e;
      key = [];
      key_len = some key_len;
      nonce = [];
      nonce_len = some nonce_len;
      file = r.rest;
      buf = r.chars;
    } in
    if not (key_len + nonce_len == i)
    then early e_key_nonce_bad_length
    else if eof
    then early e_eof
    else if key_len == 0
    then early e_ok
    else record {
      result = e_ok;
      key = key;
      key_len = some (key_len / 2);
      nonce = nonce;
      nonce_len = some (nonce_len / 2);
      file = r.rest;
      buf = r.chars;
    }

-- What follows the loop, and the two `return`s inside it.
unfoldable pub finish_line : Scan → KeyLine
finish_line r =
    let failed : FileErrors → KeyLine = λ e. record {
      result = e;
      key = [];
      key_len = none;
      nonce = [];
      nonce_len = none;
      file = r.rest;
      buf = r.chars;
    } in
    elim r.stop [
      | at_newline ↦ divide_line false r
      | at_eof ↦ divide_line true r
      | too_long ↦ failed e_key_nonce_bad_length
      | invalid_character ↦ failed e_key_invalid_character
    ]

unfoldable pub load_key_line : List ℕ → KeyLine
load_key_line file = finish_line (scan_line 0 file)
