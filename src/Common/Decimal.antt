-- ===== src/Common/Decimal.antt =====
-- `String(n)` and `parseInt(s, 10)` for the numbers that the program stores as text. A result of
-- `none` is NaN. `parse_int` reads no sign and no leading blank: the program writes neither.
use Prim.Native.Nat.{ℕ, zero, suc, ◌+◌, ◌-◌, ◌*◌, ◌/◌, ◌%◌, ◌≤◌, ◌<◌}
use Prim.Native.Char.{Char, code}
use Prim.Native.String.{String, [], ◌∷◌}
use mathlib.Core.Path.{◌≡◌, refl, ap, ◌∙◌}
use mathlib.Core.Bool.{Bool, true, false, ◌&&◌}
use mathlib.Core.Option.{Option, none, some}
use native.Mathlib.Omega.{arith}
use did_wallet_thesis.Common.Tests.{ltb, leb, eqb, ◌==◌, if◌then◌else◌}
use did_wallet_thesis.Common.Text.{nth, cons_ne_empty}

digit : ℕ → Char
unfolding nth
digit d = nth "0123456789" d

unfoldable pub is_digit : Char → Bool
is_digit c = leb b'0' (code c) && leb (code c) b'9'

emit : ℕ → ℕ → String → String
emit zero n out = out
emit (suc f) n out =
    let rest = emit f (n / 10) (digit (n % 10) ∷ out) in if ltb 0 n then rest else out

-- `String(n)`.
unfoldable pub print : ℕ → String
unfolding emit digit
print n = if eqb n 0 then "0" else emit n n ""

scan : String → ℕ → ℕ
scan [] n = n
scan (c ∷ s) n = if is_digit c then scan s (n * 10 + (code c - b'0')) else n

-- `parseInt(s, 10)`.
unfoldable pub parse_int : String → Option ℕ
unfolding scan is_digit
parse_int [] = none
parse_int (c ∷ s) = if is_digit c then some (scan (c ∷ s) 0) else none

digit-code : (d : ℕ) → d < 10 → code (digit d) ≡ d + b'0'
unfolding digit
digit-code zero h = refl
digit-code (suc zero) h = refl
digit-code (suc (suc zero)) h = refl
digit-code (suc (suc (suc zero))) h = refl
digit-code (suc (suc (suc (suc zero)))) h = refl
digit-code (suc (suc (suc (suc (suc zero))))) h = refl
digit-code (suc (suc (suc (suc (suc (suc zero)))))) h = refl
digit-code (suc (suc (suc (suc (suc (suc (suc zero))))))) h = refl
digit-code (suc (suc (suc (suc (suc (suc (suc (suc zero)))))))) h = refl
digit-code (suc (suc (suc (suc (suc (suc (suc (suc (suc zero))))))))) h = refl
digit-code (suc (suc (suc (suc (suc (suc (suc (suc (suc (suc d)))))))))) h = absurd (omega arith)

cancel : (m d : ℕ) → m + (d + b'0' - b'0') ≡ m + d
cancel m d = omega arith

scan-digit : (d n : ℕ) (s : String) → d < 10 → scan (digit d ∷ s) n ≡ scan s (n * 10 + d)
unfolding scan is_digit
scan-digit d n s h = rw (digit-code d h) (ground (arith, cancel (n * 10) d))

quotient_le : (n f : ℕ) → n ≤ suc f → n / 10 ≤ f
quotient_le n f h = omega arith

recompose : (n : ℕ) → n / 10 * 10 + n % 10 ≡ n
recompose n = omega arith

scan-emit : (f n : ℕ) (out : String) → n ≤ f → scan (emit f n out) 0 ≡ scan out n
unfolding emit
scan-emit zero zero out h = refl
scan-emit zero (suc n) out h = absurd (omega arith)
scan-emit (suc f) n out h = ground (
  arith,
  scan-emit f (n / 10) (digit (n % 10) ∷ out),
  scan-digit (n % 10) (n / 10) out,
  quotient_le n f,
  recompose n,
  ap (scan out) (recompose n),
)

-- A text that begins with a digit.
abbrev StartsDigit : String → Type 0
StartsDigit [] = ⊥
StartsDigit (c ∷ s) = is_digit c ≡ true

digit-is_digit : (d : ℕ) → d < 10 → is_digit (digit d) ≡ true
unfolding is_digit
digit-is_digit d h = rw (digit-code d h) (ground arith)

emit-StartsDigit : (f n : ℕ) (out : String) → StartsDigit out → StartsDigit (emit f n out)
unfolding emit
emit-StartsDigit zero n out h = h
emit-StartsDigit (suc f) n out h =
    ground (arith, emit-StartsDigit f (n / 10) (digit (n % 10) ∷ out), digit-is_digit (n % 10))

emit_pos-StartsDigit : (f n : ℕ) → 0 < n → n ≤ f → StartsDigit (emit f n "")
unfolding emit
emit_pos-StartsDigit zero n p h = absurd (omega arith)
emit_pos-StartsDigit (suc f) n p h =
    ground (arith, emit-StartsDigit f (n / 10) (digit (n % 10) ∷ ""), digit-is_digit (n % 10))

parse_int-scan : (s : String) → StartsDigit s → parse_int s ≡ some (scan s 0)
unfolding parse_int
parse_int-scan [] h = absurd h
parse_int-scan (c ∷ s) h = rw h

print-suc : (n : ℕ) → print (suc n) ≡ emit (suc n) (suc n) ""
unfolding print
print-suc n = ground arith

print-StartsDigit : (n : ℕ) → StartsDigit (print n)
print-StartsDigit zero = unfold print is_digit in refl
print-StartsDigit (suc n) =
    rw (print-suc n) (emit_pos-StartsDigit (suc n) (suc n) (omega arith) (omega arith))

-- What `String` writes, `parseInt` reads back.
pub parse_int-print : (n : ℕ) → parse_int (print n) ≡ some n
parse_int-print zero = unfold print parse_int in refl
parse_int-print (suc n) =
    parse_int-scan (print (suc n)) (print-StartsDigit (suc n)) ∙ ap some (scan-print (suc n))
  where
    scan-print : (m : ℕ) → scan (print m) 0 ≡ m
    scan-print zero = unfold print scan is_digit in refl
    scan-print (suc m) =
        rw (print-suc m) (scan-emit (suc m) (suc m) "" (omega arith) ∙ unfold scan in refl)

ne_empty : (s : String) → StartsDigit s → (s == "") ≡ false
ne_empty [] h = absurd h
ne_empty (c ∷ s) h = cons_ne_empty c s

-- A printed number is never the empty text, so it is truthy when it is read back.
pub print_ne_empty : (n : ℕ) → (print n == "") ≡ false
print_ne_empty n = ne_empty (print n) (print-StartsDigit n)
