-- ===== src/Admin/Universities/Laws.antt =====
-- features/universities/universities.component.ts: the hash of a diploma.
use Prim.Native.String
use Prim.Native.String.{[], ◌∷◌, count}
use text.Mathlib.TextLemmas.{
  cons-append, nil-append, append_assoc, length-append, length-cons, length-nil,
}
use did_wallet_thesis.Common.{
  ℕ, zero, suc, ◌*◌, ◌/◌, ◌%◌, ◌≤◌, String, List, ◌++◌, length, ◌≡◌, refl, ap, ◌∙◌, sym, arith,
}
use did_wallet_thesis.Common.Decimal.{print}
use did_wallet_thesis.Common.Text.{take_chars, pad_end, pad_end_long}
use did_wallet_thesis.Admin.Universities.{hex_char, hex_of, raw_of, credential_hash, zero_char}

hex_of-append : (xs ys : List ℕ) → hex_of (xs ++ ys) ≡ String.◌++◌ (hex_of xs) (hex_of ys)
unfolding hex_of
hex_of-append List.[] ys = sym (nil-append (hex_of ys))
hex_of-append (List.◌∷◌ b xs) ys =
    rw
      (
        hex_of-append xs ys,
        append_assoc (hex_char (b / 16)) (String.◌++◌ (hex_char (b % 16)) (hex_of xs)) (hex_of ys),
        append_assoc (hex_char (b % 16)) (hex_of xs) (hex_of ys),
      )
      refl

count-hex_char : (d : ℕ) → count (hex_char d) ≡ 1
unfolding hex_char
count-hex_char d = omega (arith, length-cons _ "", length-nil)

count-hex_of : (xs : List ℕ) → count (hex_of xs) ≡ 2 * length xs
unfolding hex_of
count-hex_of List.[] = length-nil
count-hex_of (List.◌∷◌ b xs) = omega (
  arith,
  count-hex_of xs,
  length-append (hex_char (b / 16)) (String.◌++◌ (hex_char (b % 16)) (hex_of xs)),
  length-append (hex_char (b % 16)) (hex_of xs),
  count-hex_char (b / 16),
  count-hex_char (b % 16),
)

take_chars-append :
    (n : ℕ) (s t : String) → n ≤ count s → take_chars n (String.◌++◌ s t) ≡ take_chars n s
unfolding take_chars
take_chars-append zero s t h = refl
take_chars-append (suc n) [] t h = absurd (omega (arith, length-nil))
take_chars-append (suc n) (c ∷ s) t h =
    rw (cons-append c s t)
      (ap (λ (x : String). c ∷ x) (take_chars-append n s t (omega (arith, length-cons c s))))

abbrev body_of : (String → List ℕ) → String → String → List ℕ
body_of encode name id = encode (String.◌++◌ name (String.◌++◌ "|" id))

hex_of-raw_of :
    (encode : String → List ℕ) (name id : String) (now : ℕ)
    → ((s t : String) → encode (String.◌++◌ s t) ≡ encode s ++ encode t)
    → hex_of (encode (raw_of name id now))
      ≡ String.◌++◌
          (hex_of (body_of encode name id))
          (hex_of (encode (String.◌++◌ "|" (print now))))
unfolding raw_of
hex_of-raw_of encode name id now joins =
    ap hex_of (joins (String.◌++◌ name (String.◌++◌ "|" id)) (String.◌++◌ "|" (print now)))
    ∙ hex_of-append (body_of encode name id) (encode (String.◌++◌ "|" (print now)))

hash_cut :
    (encode : String → List ℕ) (name id : String) (now : ℕ)
    → ((s t : String) → encode (String.◌++◌ s t) ≡ encode s ++ encode t)
    → 32 ≤ length (body_of encode name id)
    → credential_hash encode name id now
      ≡ String.◌++◌ "0x" (take_chars 64 (hex_of (body_of encode name id)))
unfolding credential_hash
hash_cut encode name id now joins long =
    let front = hex_of (body_of encode name id) in
    let back = hex_of (encode (String.◌++◌ "|" (print now))) in
    let full : 64 ≤ count front = omega (arith, count-hex_of (body_of encode name id)) in
    let fuller : 64 ≤ count (String.◌++◌ front back) = omega (arith, length-append front back) in
    ap (String.◌++◌ "0x") (
      ap (λ (h : String). take_chars 64 (pad_end h 64 zero_char))
        (hex_of-raw_of encode name id now joins)
      ∙ ap (take_chars 64) (pad_end_long (String.◌++◌ front back) 64 zero_char fuller)
      ∙ take_chars-append 64 front back full)

-- The hash of a diploma does not depend on the time, and so not on which diploma it is, when the name and
-- the accreditation fill 32 bytes: two diplomas of a student at a university have the same hash. It is
-- assumed that the encoding of a text is that of its parts, one after the other.
pub credential_hash_timeless :
    (encode : String → List ℕ) (name id : String) (now later : ℕ)
    → ((s t : String) → encode (String.◌++◌ s t) ≡ encode s ++ encode t)
    → 32 ≤ length (encode (String.◌++◌ name (String.◌++◌ "|" id)))
    → credential_hash encode name id now ≡ credential_hash encode name id later
credential_hash_timeless encode name id now later joins long =
    hash_cut encode name id now joins long ∙ sym (hash_cut encode name id later joins long)
