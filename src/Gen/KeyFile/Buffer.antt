-- ===== src/Gen/KeyFile/Buffer.antt =====
-- How much of its buffer `load_key_line` fills.
use rd_rand.Prelude.{
  ◌⊎◌, ◌≢◌, inl, inr, ℕ, ◌+◌, ◌*◌, ◌/◌, ◌≤◌, ◌≡◌, refl, sym, subst, ap, arith, Bool, true, false,
  List, [], ◌∷◌, ◌++◌, length, ltb, if_elim, not, ◌==◌,
}
use native.Mathlib.Decide.{dec_lt}
use rd_rand.Gen.KeyFile.{
  e_ok, e_key_nonce_bad_length, newline, is_hex, Stop, at_newline, at_eof, too_long,
  invalid_character, Scan, scan_line, KeyLine, divide_line, finish_line, load_key_line,
}
use rd_rand.Gen.KeyFile.Line.{Hex, scan_line-Hex}

-- A line of 65 hexadecimal digits is refused, but only after all 65 are stored in `buf`, which has
-- room for 64.
pub load_key_line_overflow :
    (cs rest : List ℕ)
    → Hex cs
    → length cs ≡ 65
    → (length (load_key_line (cs ++ newline ∷ rest)).buf ≡ 65)
      × ((load_key_line (cs ++ newline ∷ rest)).result ≡ e_key_nonce_bad_length)
unfolding load_key_line finish_line divide_line
load_key_line_overflow cs rest hex long =
    let scanned = scan_line-Hex 0 cs rest hex (omega arith) in
    subst
      (λ r. (length (finish_line r).buf ≡ 65) × ((finish_line r).result ≡ e_key_nonce_bad_length))
      (sym scanned) (rw (divide_line, long) (long, refl))

length-scan_line : (i : ℕ) (file : List ℕ) → i ≤ 65 → i + length (scan_line i file).chars ≤ 65
unfolding scan_line
length-scan_line i [] short = omega arith
length-scan_line i (c ∷ cs) short =
    if_elim {A = Scan} (λ r. i + length r.chars ≤ 65) (c == newline) (λ _. omega arith)
      (λ _.
        if_elim {A = Scan} (λ r. i + length r.chars ≤ 65) (not (is_hex c)) (λ _. omega arith)
          (λ _.
            if_elim {A = Scan} (λ r. i + length r.chars ≤ 65) (ltb 64 i) (λ _. omega arith)
              (λ low.
                let room : i + 1 ≤ 65 = ground arith in
                omega (arith, length-scan_line (i + 1) cs room))))

divide_line-short :
    (eof : Bool) (r : Scan)
    → length r.chars ≤ 65
    → (divide_line eof r).result ≡ e_ok
    → length (divide_line eof r).buf ≤ 64
unfolding divide_line
divide_line-short eof r short =
    let Good : KeyLine → Type 0 = λ l. l.result ≡ e_ok → length l.buf ≤ 64 in
    let i = length r.chars in
    if_elim {A = KeyLine} Good (not (i / 3 * 2 + i / 3 == i)) (λ _ e. absurd cc)
      (λ whole.
        let fits : i ≤ 64 = ground arith in
        if_elim {A = KeyLine} Good eof (λ _ _. fits)
          (λ _. if_elim {A = KeyLine} Good (i / 3 * 2 == 0) (λ _ _. fits) (λ _ _. fits)))

divide_line-buf : (eof : Bool) (r : Scan) → (divide_line eof r).buf ≡ r.chars
unfolding divide_line
divide_line-buf eof r =
    let Good : KeyLine → Type 0 = λ l. l.buf ≡ r.chars in
    let i = length r.chars in
    if_elim {A = KeyLine} Good (not (i / 3 * 2 + i / 3 == i)) (λ _. refl)
      (λ _.
        if_elim {A = KeyLine} Good eof (λ _. refl)
          (λ _. if_elim {A = KeyLine} Good (i / 3 * 2 == 0) (λ _. refl) (λ _. refl)))

finish_line-within :
    (s : Stop) (r : Scan)
    → r.stop ≡ s
    → 0 + length r.chars ≤ 65
    → (length (finish_line r).buf ≤ 65)
      × ((finish_line r).result ≡ e_ok → length (finish_line r).buf ≤ 64)
unfolding finish_line
finish_line-within at_newline r e short =
    rw (finish_line, e)
      (omega (arith, ap length (divide_line-buf false r)), divide_line-short false r (omega arith))
finish_line-within at_eof r e short =
    rw (finish_line, e)
      (omega (arith, ap length (divide_line-buf true r)), divide_line-short true r (omega arith))
finish_line-within too_long r e short = rw (finish_line, e) (omega arith, λ bad. absurd cc)
finish_line-within invalid_character r e short = rw (finish_line, e) (omega arith, λ bad. absurd cc)

-- Whatever the file holds, `load_key_line` stores 65 characters at most in `buf`; where it stores
-- more than the 64 that there is room for, it does not succeed.
pub load_key_line_within :
    (file : List ℕ)
    → (length (load_key_line file).buf ≤ 65)
      × ((length (load_key_line file).buf ≤ 64) ⊎ ((load_key_line file).result ≢ e_ok))
unfolding load_key_line
load_key_line_within file = (
  bounds.0,
  elim (dec_lt (length (load_key_line file).buf) 65) [
    | yes fits ↦ inl (omega arith)
    | no over ↦ inr (λ ok. over (omega (arith, bounds.1 ok)))
  ],
)
  where
    bounds :
        (length (load_key_line file).buf ≤ 65)
        × ((load_key_line file).result ≡ e_ok → length (load_key_line file).buf ≤ 64)
    bounds =
        let r = scan_line 0 file in
        finish_line-within r.stop r refl (length-scan_line 0 file (omega arith))
