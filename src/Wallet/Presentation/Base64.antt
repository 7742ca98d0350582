-- ===== src/Wallet/Presentation/Base64.antt =====
-- types/presentation.ts: base64 text through its form for URLs and back.
use did_wallet_thesis.Common.{
  ℕ, zero, suc, ◌+◌, ◌-◌, ◌%◌, ◌<◌, ◌≡◌, refl, sym, String, Bool, true, false, arith, eqb, not,
  ◌&&◌, ◌∙◌, ap, Bool-cases, inl, inr, ◌⊎◌,
}
use Prim.Native.Char.{Char, code}
use Prim.Native.String
use Prim.Native.String.{[], ◌∷◌, count}
use text.Mathlib.TextEquality.{Char-path}
use text.Mathlib.TextLemmas.{length-cons, cons-append, nil-append}
use did_wallet_thesis.Common.Text.{repeat, nth}
use did_wallet_thesis.Wallet.Presentation.{
  replace_in, map_chars, all_padding, strip_padding, url_safe, pad_base64, url_unsafe,
}

-- A text without the characters `-`, `_` and `=`.
abbrev pub is_plain : String → Bool
is_plain [] = true
is_plain (c ∷ s) =
    not (eqb (code c) b'-') && (not (eqb (code c) b'_') && (not (eqb (code c) b'=') && is_plain s))

abbrev equals : Char
equals = nth "=" 0

-- The text that `btoa` makes: plain characters and padding up to a multiple of four.
pub record IsBase64 (s : String) : Type 0 where
  pub body : String
  pub padding : ℕ
  pub text : s ≡ String.◌++◌ body (repeat padding (nth "=" 0))
  pub plain : is_plain body ≡ true
  pub short : padding < 4
  pub whole : (count body + padding) % 4 ≡ 0

there : Char → Char
unfolding replace_in
there c = replace_in "+/" "-_" c

back : Char → Char
unfolding replace_in
back c = replace_in "-_" "+/" c

there_other : (c : Char) → eqb b'+' (code c) ≡ false → eqb b'/' (code c) ≡ false → there c ≡ c
unfolding there replace_in
there_other c h k = rw (h, k) refl

back_other : (c : Char) → eqb b'-' (code c) ≡ false → eqb b'_' (code c) ≡ false → back c ≡ c
unfolding back replace_in
back_other c h k = rw (h, k) refl

same_code : (c : Char) → eqb b'+' (code c) ≡ true → code c ≡ code (nth "+" 0)
unfolding nth
same_code c h = ground arith

same_slash : (c : Char) → eqb b'/' (code c) ≡ true → code c ≡ code (nth "/" 0)
unfolding nth
same_slash c h = ground arith

-- A character is `+`, `/`, or neither.
Plus-cases : (c : Char) → (c ≡ nth "+" 0) ⊎ (c ≡ nth "/" 0) ⊎ (there c ≡ c)
unfolding nth
Plus-cases c = elim (Bool-cases (eqb b'+' (code c))) [
  | inl plus ↦ inl (Char-path c (nth "+" 0) (same_code c plus))
  | inr other ↦ elim (Bool-cases (eqb b'/' (code c))) [
    | inl slash ↦ inr (inl (Char-path c (nth "/" 0) (same_slash c slash)))
    | inr neither ↦ inr (inr (there_other c other neither))
  ]
]

abbrev plain_char : Char → Bool
plain_char c = not (eqb (code c) b'-') && (not (eqb (code c) b'_') && not (eqb (code c) b'='))

back-there : (c : Char) → plain_char c ≡ true → back (there c) ≡ c
back-there c h = elim (Plus-cases c) [
  | inl plus ↦ rw plus (unfold back there replace_in nth in refl)
  | inr (inl slash) ↦ rw slash (unfold back there replace_in nth in refl)
  | inr (inr same) ↦ ap back same ∙ back_other c (ground arith) (ground arith)
]

there_ne : (c : Char) → plain_char c ≡ true → eqb (code (there c)) b'=' ≡ false
there_ne c h = elim (Plus-cases c) [
  | inl plus ↦ rw plus (unfold there replace_in nth in refl)
  | inr (inl slash) ↦ rw slash (unfold there replace_in nth in refl)
  | inr (inr same) ↦ rw same (ground arith)
]

all_padding-repeat : (n : ℕ) → all_padding (repeat n (nth "=" 0)) ≡ true
unfolding all_padding repeat nth
all_padding-repeat zero = refl
all_padding-repeat (suc n) = all_padding-repeat n

strip_padding-repeat : (n : ℕ) → strip_padding (repeat n (nth "=" 0)) ≡ ""
unfolding strip_padding repeat nth
strip_padding-repeat zero = refl
strip_padding-repeat (suc n) = rw (all_padding-repeat n) refl

map_chars-repeat : (n : ℕ) → map_chars "+/" "-_" (repeat n (nth "=" 0)) ≡ repeat n (nth "=" 0)
unfolding map_chars repeat nth replace_in
map_chars-repeat zero = refl
map_chars-repeat (suc n) = ap (λ (s : String). nth "=" 0 ∷ s) (map_chars-repeat n)

map-cons : (c : Char) (s : String) → map_chars "+/" "-_" (c ∷ s) ≡ there c ∷ map_chars "+/" "-_" s
unfolding map_chars there
map-cons c s = refl

unmap-cons : (c : Char) (s : String) → map_chars "-_" "+/" (c ∷ s) ≡ back c ∷ map_chars "-_" "+/" s
unfolding map_chars back
unmap-cons c s = refl

strip-cons :
    (c : Char) (s : String)
    → eqb (code c) b'=' ≡ false
    → strip_padding (c ∷ s) ≡ c ∷ strip_padding s
unfolding strip_padding all_padding
strip-cons c s h = rw h refl

plain-head : (c : Char) (s : String) → is_plain (c ∷ s) ≡ true → plain_char c ≡ true
plain-head c s h = ground arith

plain-tail : (c : Char) (s : String) → is_plain (c ∷ s) ≡ true → is_plain s ≡ true
plain-tail c s h = ground arith

strip-map :
    (s : String) (n : ℕ)
    → is_plain s ≡ true
    → strip_padding (map_chars "+/" "-_" (String.◌++◌ s (repeat n (nth "=" 0))))
      ≡ map_chars "+/" "-_" s
strip-map [] n h =
    rw (nil-append (repeat n (nth "=" 0)), map_chars-repeat n, strip_padding-repeat n)
      (unfold map_chars in refl)
strip-map (c ∷ s) n h =
    let pads = repeat n (nth "=" 0) in
    let rest = map_chars "+/" "-_" (String.◌++◌ s pads) in
    ap (λ (r : String). strip_padding (map_chars "+/" "-_" r)) (cons-append c s pads)
    ∙ ap strip_padding (map-cons c (String.◌++◌ s pads))
    ∙ strip-cons (there c) rest (there_ne c (plain-head c s h))
    ∙ ap (λ (r : String). there c ∷ r) (strip-map s n (plain-tail c s h))
    ∙ sym (map-cons c s)

back-map : (s : String) → is_plain s ≡ true → map_chars "-_" "+/" (map_chars "+/" "-_" s) ≡ s
back-map [] h = unfold map_chars in refl
back-map (c ∷ s) h =
    let rest = map_chars "+/" "-_" s in
    ap (map_chars "-_" "+/") (map-cons c s)
    ∙ unmap-cons (there c) rest
    ∙ ap (λ (d : Char). d ∷ map_chars "-_" "+/" rest) (back-there c (plain-head c s h))
    ∙ ap (λ (r : String). c ∷ r) (back-map s (plain-tail c s h))

count-map_chars : (from to s : String) → count (map_chars from to s) ≡ count s
unfolding map_chars
count-map_chars from to [] = refl
count-map_chars from to (c ∷ s) =
    rw
      (
        length-cons (replace_in from to c) (map_chars from to s),
        count-map_chars from to s,
        length-cons c s,
      )
      refl

needed : (n padding : ℕ) → padding < 4 → (n + padding) % 4 ≡ 0 → (4 - n % 4) % 4 ≡ padding
needed n padding h k = omega arith

pub url_unsafe-url_safe : (s : String) → IsBase64 s → url_unsafe (url_safe s) ≡ s
unfolding url_unsafe url_safe pad_base64
url_unsafe-url_safe s b =
    let safe =
      ap (λ (r : String). strip_padding (map_chars "+/" "-_" r)) b.text
      ∙ strip-map b.body b.padding b.plain in
    let whole = ap (map_chars "-_" "+/") safe ∙ back-map b.body b.plain in
    ap pad_base64 whole
    ∙ ap (λ (n : ℕ). String.◌++◌ b.body (repeat n (nth "=" 0)))
        (needed (count b.body) b.padding b.short b.whole)
    ∙ sym b.text
