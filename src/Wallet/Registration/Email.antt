-- ===== src/Wallet/Registration/Email.antt =====
-- The expression `/^[^\s@]+@[^\s@]+\.[^\s@]+$/` for an e-mail address, as a matcher with backtracking: each
-- part of the expression is handed the parts behind it.
use Prim.Native.Char.{Char, code}
use Prim.Native.String
use Prim.Native.String.{[], ◌∷◌}
use text.Mathlib.TextLemmas.{cons-append, nil-append, append-nil}
use text.Mathlib.TextEquality.{Char-path}
use did_wallet_thesis.Common.{
  ℕ, String, Bool, true, false, not, ◌&&◌, ◌||◌, eqb, eqb_iff, ◌≡◌, refl, sym, ap, ◌∙◌, ◌↔◌, arith,
  Bool-cases, inl, inr,
}
use did_wallet_thesis.Common.Text.{nth}
use did_wallet_thesis.Common.Trim.{is_blank}

-- `p+` and the rest of the expression.
unfoldable pub some_of : (Char → Bool) → (String → Bool) → String → Bool
some_of p rest [] = false
some_of p rest (c ∷ s) = p c && (rest s || some_of p rest s)

-- One character and the rest.
unfoldable pub one_char : ℕ → (String → Bool) → String → Bool
one_char n rest [] = false
one_char n rest (c ∷ s) = eqb (code c) n && rest s

unfoldable pub at_end : String → Bool
at_end [] = true
at_end (c ∷ s) = false

-- `[^\s@]`.
unfoldable pub is_part : Char → Bool
unfolding is_blank
is_part c = not (is_blank c) && not (eqb (code c) b'@')

unfoldable pub is_email : String → Bool
unfolding some_of one_char at_end is_part
is_email s =
    some_of is_part (one_char b'@' (some_of is_part (one_char b'.' (some_of is_part at_end)))) s

-- A text of one character or more, all of which pass the test.
unfoldable pub is_run : (Char → Bool) → String → Bool
is_run p [] = false
is_run p (c ∷ s) = p c && (at_end s || is_run p s)

-- A text `rest` accepts stands behind a run.
Splits : (Char → Bool) → (String → Bool) → String → Type 0
Splits p rest s =
    (run : String) × (tail : String) × (s ≡ String.◌++◌ run tail)
    × (is_run p run ≡ true)
    × (rest tail ≡ true)

some_of-Splits :
    (p : Char → Bool) (rest : String → Bool) (s : String)
    → some_of p rest s ≡ true
    → Splits p rest s
unfolding some_of Splits is_run at_end
some_of-Splits p rest [] h = absurd (ground arith)
some_of-Splits p rest (c ∷ s) h = elim (Bool-cases (rest s)) [
  | inl here ↦ (
    c ∷ "",
    s,
    sym (cons-append c "" s ∙ ap (λ (t : String). c ∷ t) (nil-append s)),
    ground arith,
    here,
  )
  | inr later ↦
      let (run, tail, e, runs, accepted) = some_of-Splits p rest s (ground arith) in
      (
        c ∷ run,
        tail,
        ap (λ (t : String). c ∷ t) e ∙ sym (cons-append c run tail),
        ground arith,
        accepted,
      )
]

Splits-some_of :
    (p : Char → Bool) (rest : String → Bool) (run tail : String)
    → is_run p run ≡ true
    → rest tail ≡ true
    → some_of p rest (String.◌++◌ run tail) ≡ true
unfolding is_run some_of at_end
Splits-some_of p rest [] tail runs accepted = absurd (ground arith)
Splits-some_of p rest (c ∷ []) tail runs accepted =
    rw (cons-append c "" tail, nil-append tail) (ground arith)
Splits-some_of p rest (c ∷ d ∷ run) tail runs accepted =
    rw (cons-append c (d ∷ run) tail) (ground (arith, Splits-some_of p rest (d ∷ run) tail))

one_char-lead :
    (d : Char) (rest : String → Bool) (s : String)
    → one_char (code d) rest s ≡ true
    → (tail : String) × (s ≡ d ∷ tail) × (rest tail ≡ true)
unfolding one_char
one_char-lead d rest [] h = absurd (ground arith)
one_char-lead d rest (c ∷ s) h = elim (Bool-cases (eqb (code c) (code d))) [
  | inl same ↦ (
    s,
    ap (λ (x : Char). x ∷ s) (Char-path c d ((eqb_iff (code c) (code d)).0 same)),
    ground arith,
  )
  | inr other ↦ absurd (ground arith)
]

at_end-empty : (s : String) → at_end s ≡ true → s ≡ ""
unfolding at_end
at_end-empty [] h = refl
at_end-empty (c ∷ s) h = absurd (ground arith)

lead_text : (c : Char) (t : String) → String.◌++◌ (c ∷ "") t ≡ c ∷ t
lead_text c t = cons-append c "" t ∙ ap (λ (s : String). c ∷ s) (nil-append t)

abbrev at_sign : Char
at_sign = nth "@" 0

abbrev dot : Char
dot = nth "." 0

-- A user, a host and a domain, none of them empty and all without a blank or `@`.
abbrev pub HasParts : String → Type 0
HasParts s =
    (user : String) × (host : String) × (domain : String) × (s
      ≡ String.◌++◌ user (String.◌++◌ "@" (String.◌++◌ host (String.◌++◌ "." domain))))
    × (is_run is_part user ≡ true)
    × (is_run is_part host ≡ true)
    × (is_run is_part domain ≡ true)

lead_at : (t : String) → String.◌++◌ "@" t ≡ at_sign ∷ t
unfolding nth
lead_at t = lead_text at_sign t

lead_dot : (t : String) → String.◌++◌ "." t ≡ dot ∷ t
unfolding nth
lead_dot t = lead_text dot t

after_dot_test : String → Bool
after_dot_test s = one_char b'.' (some_of is_part at_end) s

after_at_test : String → Bool
unfolding after_dot_test
after_at_test s = one_char b'@' (some_of is_part after_dot_test) s

is_email-some_of : (s : String) → is_email s ≡ some_of is_part after_at_test s
unfolding is_email after_at_test after_dot_test
is_email-some_of s = refl

joined :
    (user s1 s2 host s3 s4 domain s5 : String)
    → s1 ≡ at_sign ∷ s2
    → s2 ≡ String.◌++◌ host s3
    → s3 ≡ dot ∷ s4
    → s4 ≡ String.◌++◌ domain s5
    → s5 ≡ ""
    → String.◌++◌ user s1
      ≡ String.◌++◌ user (String.◌++◌ "@" (String.◌++◌ host (String.◌++◌ "." domain)))
joined user s1 s2 host s3 s4 domain s5 e2 e3 e4 e5 e6 =
    rw
      (
        e2,
        e3,
        e4,
        e5,
        e6,
        append-nil domain,
        lead_dot domain,
        lead_at (String.◌++◌ host (dot ∷ domain)),
      )
      refl

is_email-HasParts : (s : String) → is_email s ≡ true → HasParts s
unfolding Splits
is_email-HasParts s h =
    let (user, s1, e1, r1, h1) =
      some_of-Splits is_part after_at_test s (sym (is_email-some_of s) ∙ h) in
    let (s2, e2, h2) =
      one_char-lead at_sign (some_of is_part after_dot_test) s1 (unfold after_at_test nth in h1) in
    let (host, s3, e3, r3, h3) = some_of-Splits is_part after_dot_test s2 h2 in
    let (s4, e4, h4) =
      one_char-lead dot (some_of is_part at_end) s3 (unfold after_dot_test nth in h3) in
    let (domain, s5, e5, r5, h5) = some_of-Splits is_part at_end s4 h4 in
    (
      user,
      host,
      domain,
      e1 ∙ joined user s1 s2 host s3 s4 domain s5 e2 e3 e4 e5 (at_end-empty s5 h5),
      r1,
      r3,
      r5,
    )

after_dot_test-dot :
    (domain : String)
    → is_run is_part domain ≡ true
    → after_dot_test (String.◌++◌ "." domain) ≡ true
unfolding after_dot_test one_char nth
after_dot_test-dot domain r =
    rw (lead_dot domain, sym (append-nil domain))
      (Splits-some_of is_part at_end domain "" r (unfold at_end in refl))

after_at_test-at :
    (host tail : String)
    → is_run is_part host ≡ true
    → after_dot_test tail ≡ true
    → after_at_test (String.◌++◌ "@" (String.◌++◌ host tail)) ≡ true
unfolding after_at_test one_char nth
after_at_test-at host tail r accepted =
    rw (lead_at (String.◌++◌ host tail))
      (Splits-some_of is_part after_dot_test host tail r accepted)

HasParts-is_email : (s : String) → HasParts s → is_email s ≡ true
HasParts-is_email s (user, host, domain, e, r1, r3, r5) = rw e (
    is_email-some_of _
    ∙ Splits-some_of is_part after_at_test user _ r1
        (after_at_test-at host (String.◌++◌ "." domain) r3 (after_dot_test-dot domain r5)))

-- The expression accepts exactly the texts `user@host.domain` whose three parts have a character each
-- and contain neither a blank nor `@`.
pub is_email_lem : (s : String) → (is_email s ≡ true) ↔ HasParts s
is_email_lem s = (is_email-HasParts s, HasParts-is_email s)
