-- ===== src/Aes/Buffers.antt =====
-- Arrays of byte strings of one length: the array of keys and that of nonces.
use rd_rand.Prelude.{
  ℕ, zero, suc, ◌≤◌, ◌<◌, ◌≡◌, refl, ap, ◌∙◌, arith, some, List, [], ◌∷◌, length, get_or, set, take,
  drop, replicate, length-append, length-take, length-drop, length-replicate,
}
use rd_rand.Aes.Keys.{overwrite, zeros, copy_all}
use rd_rand.Aes.Change.{write_at}

-- Every string has `n` bytes.
abbrev pub Sized : ℕ → List (List ℕ) → Type 0
Sized n [] = Unit {0}
Sized n (b ∷ bufs) = (length b ≡ n) × Sized n bufs

pub length-overwrite :
    (dest src : List ℕ) (n : ℕ)
    → n ≤ length src
    → n ≤ length dest
    → length (overwrite dest src n) ≡ length dest
length-overwrite dest src n enough room =
    omega (arith, length-append (take n src) (drop n dest), length-take n src, length-drop n dest)

pub length-get_or :
    (n : ℕ) (bufs : List (List ℕ)) (i : ℕ)
    → Sized n bufs
    → i < length bufs
    → length (get_or bufs i []) ≡ n
length-get_or n [] i s h = absurd (omega arith)
length-get_or n (b ∷ bufs) zero s h = s.0
length-get_or n (b ∷ bufs) (suc i) s h = length-get_or n bufs i s.1 (omega arith)

pub Sized-set :
    (n : ℕ) (bufs : List (List ℕ)) (i : ℕ) (b : List ℕ)
    → Sized n bufs
    → length b ≡ n
    → Sized n (set bufs i b)
Sized-set n [] i b s h = tt
Sized-set n (x ∷ bufs) zero b s h = (h, s.1)
Sized-set n (x ∷ bufs) (suc i) b s h = (s.0, Sized-set n bufs i b s.1 h)

pub Sized-replicate : (n k : ℕ) → Sized n (replicate k (zeros n))
Sized-replicate n zero = tt
Sized-replicate n (suc k) = (length-replicate n 0, Sized-replicate n k)

-- A string of the right length, written through a pointer into the array.
pub Sized-write_at :
    (n : ℕ) (bufs : List (List ℕ)) (i : ℕ) (b : List ℕ)
    → Sized n bufs
    → i < length bufs
    → n ≤ length b
    → Sized n (write_at bufs (some i) b n)
Sized-write_at n bufs i b s h enough =
    let old = length-get_or n bufs i s h in
    Sized-set n bufs i (overwrite (get_or bufs i []) b n) s
      (length-overwrite (get_or bufs i []) b n enough (omega arith) ∙ old)

module _ (n m k : ℕ) (room : k ≤ n) (enough : k ≤ m) where
  pub Sized-copy_all :
      (bufs src : List (List ℕ)) → Sized n bufs → Sized m src → Sized n (copy_all k bufs src)
  unfolding copy_all
  Sized-copy_all [] src s t = tt
  Sized-copy_all (b ∷ bufs) [] s t = s
  Sized-copy_all (b ∷ bufs) (x ∷ src) s t =
      (length-overwrite b x k (omega arith) (omega arith) ∙ s.0, Sized-copy_all bufs src s.1 t.1)

pub length-copy_all :
    (k : ℕ) (bufs src : List (List ℕ)) → length (copy_all k bufs src) ≡ length bufs
unfolding copy_all
length-copy_all k [] src = refl
length-copy_all k (b ∷ bufs) [] = refl
length-copy_all k (b ∷ bufs) (x ∷ src) = ap suc (length-copy_all k bufs src)
