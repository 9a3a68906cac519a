-- ===== src/Gen/LoadKeys/Returns.antt =====
-- `load_keys` ends: every round that goes on reads a character.
use rd_rand.Prelude.{
  ℕ, suc, ◌+◌, ◌<◌, ◌≡◌, true, false, Option, some, List, [], ◌∷◌, length, ◌==◌, ◌≤◌, if◌then◌else◌,
}
use rd_rand.Gen.KeyFile.{newline}
use rd_rand.Gen.LoadKeys.{Loaded}

-- The lines of a file that end in a newline.
unfoldable pub newlines : List ℕ → ℕ
newlines [] = 0
newlines (c ∷ cs) = if c == newline then suc (newlines cs) else newlines cs

-- A number that gets no larger without a character, and smaller without a newline.
record Measures (size : List ℕ → ℕ) : Type 0 where
  char_le : (c : ℕ) (cs : List ℕ) → size cs ≤ size (c ∷ cs)
  newline_lt : (c : ℕ) (cs : List ℕ) → (c == newline) ≡ true → size cs < size (c ∷ cs)

-- Within the arrays, with room for the keys of the lines that are left.
record Fits (file : List ℕ) (s : Loaded) : Type 0 where
  inside : s.overrun ≡ false
  room : length s.keys + newlines file ≤ 128

-- The loop has ended within the arrays.
abbrev Ended : Option Loaded → Type 0
Ended o = (r : Loaded) × (o ≡ some r) × (r.overrun ≡ false)
