-- ===== src/Memory/Store.antt =====
-- Laws of stored bytes: consecutive stores, what lies outside, what lies inside.
use mathlib.Core.Logic.{◌⊎◌}
use rd_rand.Prelude.{
  ℕ, zero, suc, ◌+◌, ◌*◌, ◌/◌, ◌≤◌, ◌<◌, ◌≡◌, refl, ap, ◌∙◌, List, [], ◌∷◌, ◌++◌, arith, length,
  length-append, get_or,
}
use rd_rand.Memory.{Mem, store_byte, store_bytes, le_bytes, words}

pub store_bytes-append :
    (m : Mem) (a : ℕ) (xs ys : List ℕ)
    → store_bytes m a (xs ++ ys) ≡ store_bytes (store_bytes m a xs) (a + length xs) ys
unfolding store_bytes
store_bytes-append m a [] ys = let e : a ≡ a + 0 = omega arith in rw (← e) refl
store_bytes-append m a (x ∷ xs) ys =
    let e : a + 1 + length xs ≡ a + suc (length xs) = omega arith in
    rw (← e) (store_bytes-append (store_byte m a x) (a + 1) xs ys)

-- A store changes nothing below its address or at its end and above.
pub store_bytes_outside :
    (m : Mem) (a : ℕ) (bs : List ℕ) (p : ℕ)
    → (p < a) ⊎ (a + length bs ≤ p)
    → store_bytes m a bs p ≡ m p
unfolding store_bytes store_byte
store_bytes_outside m a [] p out = refl
store_bytes_outside m a (b ∷ bs) p out =
    store_bytes_outside (store_byte m a b) (a + 1) bs p (omega arith) ∙ ground arith

pub store_bytes_inside :
    (m : Mem) (a : ℕ) (bs : List ℕ) (i : ℕ)
    → i < length bs
    → store_bytes m a bs (a + i) ≡ get_or bs i 0
unfolding store_bytes store_byte
store_bytes_inside m a [] i h = absurd (omega arith)
store_bytes_inside m a (b ∷ bs) zero h =
    let e : a + 0 ≡ a = omega arith in
    rw e (store_bytes_outside (store_byte m a b) (a + 1) bs a (omega arith) ∙ ground arith)
store_bytes_inside m a (b ∷ bs) (suc i) h =
    let e : a + suc i ≡ a + 1 + i = omega arith in
    rw e (store_bytes_inside (store_byte m a b) (a + 1) bs i (omega arith))

pub length-le_bytes : (n x : ℕ) → length (le_bytes n x) ≡ n
unfolding le_bytes
length-le_bytes zero x = refl
length-le_bytes (suc n) x = ap suc (length-le_bytes n (x / 256))

pub length-words : (xs : List ℕ) → length (words xs) ≡ 8 * length xs
unfolding words
length-words [] = refl
length-words (x ∷ xs) =
    omega (arith, length-append (le_bytes 8 x) (words xs), length-le_bytes 8 x, length-words xs)
