-- ===== src/Common/Text.antt =====
-- The string methods that the program calls. A text is a list of code points, where the source has
-- UTF-16 code units. `to_lower` is `toLowerCase` on ASCII letters: the program lower-cases
-- hexadecimal addresses and hashes only.
use Prim.Native.Nat.{ℕ, zero, suc, ◌-◌, ◌≤◌}
use Prim.Native.Char.{Char, code, nul}
use Prim.Native.String
use Prim.Native.String.{String, [], ◌∷◌, count}
use mathlib.Core.Path.{◌≡◌, refl}
use mathlib.Core.Bool.{Bool, true, false, ◌||◌, ◌&&◌}
use native.Mathlib.Omega.{arith}
use text.Mathlib.TextLemmas.{
  length-append, length-nil, length-cons, cons-ne-nil, cons-append, append-nil,
}
use text.Mathlib.TextEquality.{eq_iff}
use did_wallet_thesis.Common.Tests.{eqb, ◌==◌, if◌then◌else◌}

map_char : String → String → Char → Char
map_char (u ∷ us) (l ∷ ls) c = if eqb (code u) (code c) then l else map_char us ls c
map_char _ _ c = c

lower_char : Char → Char
unfolding map_char
lower_char c = map_char "ABCDEFGHIJKLMNOPQRSTUVWXYZ" "abcdefghijklmnopqrstuvwxyz" c

unfoldable pub to_lower : String → String
unfolding lower_char
to_lower [] = []
to_lower (c ∷ s) = lower_char c ∷ to_lower s

-- `toUpperCase`, on ASCII letters too.
unfoldable pub to_upper : String → String
unfolding map_char
to_upper [] = []
to_upper (c ∷ s) = map_char "abcdefghijklmnopqrstuvwxyz" "ABCDEFGHIJKLMNOPQRSTUVWXYZ" c ∷ to_upper s

-- `s.slice(0, n)`.
unfoldable pub take_chars : ℕ → String → String
take_chars zero s = []
take_chars (suc n) [] = []
take_chars (suc n) (c ∷ s) = c ∷ take_chars n s

-- `s.startsWith(p)`.
unfoldable pub starts_with : String → String → Bool
starts_with [] s = true
starts_with (c ∷ p) [] = false
starts_with (c ∷ p) (d ∷ s) = eqb (code c) (code d) && starts_with p s

-- `s.includes(p)`.
unfoldable pub includes_text : String → String → Bool
unfolding starts_with
includes_text p [] = starts_with p []
includes_text p (c ∷ s) = starts_with p (c ∷ s) || includes_text p s

unfoldable pub has_char : ℕ → String → Bool
has_char n [] = false
has_char n (c ∷ s) = eqb (code c) n || has_char n s

-- `fill.repeat(n)` for a fill of one character.
unfoldable pub repeat : ℕ → Char → String
repeat zero c = []
repeat (suc n) c = c ∷ repeat n c

-- `s.padEnd(n, c)`.
unfoldable pub pad_end : String → ℕ → Char → String
unfolding repeat
pad_end s n c = String.◌++◌ s (repeat (n - count s) c)

unfoldable pub nth : String → ℕ → Char
nth [] i = nul
nth (c ∷ s) zero = c
nth (c ∷ s) (suc i) = nth s i

count-repeat : (n : ℕ) (c : Char) → count (repeat n c) ≡ n
unfolding repeat
count-repeat zero c = length-nil
count-repeat (suc n) c = rw (length-cons c (repeat n c), count-repeat n c)

-- A padded text is as long as asked for, unless it was longer.
pub count-pad_end : (s : String) (n : ℕ) (c : Char) → count s ≤ n → count (pad_end s n c) ≡ n
unfolding pad_end
count-pad_end s n c h =
    omega (arith, length-append s (repeat (n - count s) c), count-repeat (n - count s) c)

-- A text that is long enough already is not cut.
pub pad_end_long : (s : String) (n : ℕ) (c : Char) → n ≤ count s → pad_end s n c ≡ s
unfolding pad_end repeat
pad_end_long s n c h = let full : n - count s ≡ 0 = omega arith in rw (pad_end, full) (append-nil s)

lower_address : to_lower "0xAbC9" ≡ "0xabc9"
unfolding to_lower
lower_address = refl

padded : pad_end "0x1f" 8 (nth "0" 0) ≡ "0x1f0000"
unfolding pad_end nth
padded = refl

-- A text with a character is not the empty text.
pub cons_ne_empty : (c : Char) (s : String) → (c ∷ s == "") ≡ false
cons_ne_empty c s = ground (arith, eq_iff (c ∷ s) "", cons-ne-nil c s)

pub cons_append_ne_empty : (c : Char) (s t : String) → (String.◌++◌ (c ∷ s) t == "") ≡ false
cons_append_ne_empty c s t = rw (cons-append c s t) (cons_ne_empty c (String.◌++◌ s t))
