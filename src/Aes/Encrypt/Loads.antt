-- ===== src/Aes/Encrypt/Loads.antt =====
-- Laws of `load_bytes`: bytes that are read back from memory.
use rd_rand.Prelude.{ℕ, zero, suc, ◌+◌, ◌≡◌, refl, ap, ◌∙◌, arith, List, [], ◌∷◌, length}
use rd_rand.Memory.{Mem, store_byte, store_bytes}
use rd_rand.Memory.Store.{store_bytes_outside}
use rd_rand.Aes.Encrypt.{load_bytes}

pub length-load_bytes : (m : Mem) (a n : ℕ) → length (load_bytes m a n) ≡ n
unfolding load_bytes
length-load_bytes m a zero = refl
length-load_bytes m a (suc n) = ap suc (length-load_bytes m (a + 1) n)

pub load_bytes-stored :
    (m : Mem) (a : ℕ) (bs : List ℕ) → load_bytes (store_bytes m a bs) a (length bs) ≡ bs
unfolding load_bytes store_bytes store_byte
load_bytes-stored m a [] = refl
load_bytes-stored m a (b ∷ bs) = λ i. first i ∷ load_bytes-stored (store_byte m a b) (a + 1) bs i
  where
    first : store_bytes (store_byte m a b) (a + 1) bs a ≡ b
    first = store_bytes_outside (store_byte m a b) (a + 1) bs a (omega arith) ∙ ground arith
