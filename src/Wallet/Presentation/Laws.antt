-- ===== src/Wallet/Presentation/Laws.antt =====
-- types/presentation.ts: a request that is encoded decodes to itself.
use did_wallet_thesis.Common.{ℕ, ◌≡◌, refl, sym, String, true, false, some, arith, ◌∙◌, ap, ◌==◌}
use Prim.Native.Char.{Char}
use Prim.Native.String
use Prim.Native.String.{[], ◌∷◌, count}
use text.Mathlib.TextLemmas.{length-nil, length-cons, cons-append, nil-append}
use did_wallet_thesis.Common.Text.{starts_with}
use did_wallet_thesis.Wallet.Presentation.{
  PresentationRequest, url_safe, url_unsafe, drop_chars, remove_first, RequestCodec, scheme,
  encode_presentation_request, decode_presentation_request,
}
use did_wallet_thesis.Wallet.Presentation.Base64.{IsBase64, url_unsafe-url_safe}

starts_with-cons : (c : Char) (p s : String) → starts_with (c ∷ p) (c ∷ s) ≡ starts_with p s
unfolding starts_with
starts_with-cons c p s = ground arith

starts_with-append : (p s : String) → starts_with p (String.◌++◌ p s) ≡ true
starts_with-append [] s = unfold starts_with in refl
starts_with-append (c ∷ p) s =
    ap (starts_with (c ∷ p)) (cons-append c p s)
    ∙ starts_with-cons c p (String.◌++◌ p s)
    ∙ starts_with-append p s

drop_chars-cons :
    (c : Char) (p s : String) → drop_chars (count (c ∷ p)) (c ∷ s) ≡ drop_chars (count p) s
unfolding drop_chars
drop_chars-cons c p s = ap (λ (n : ℕ). drop_chars n (c ∷ s)) (length-cons c p)

drop_chars-append : (p s : String) → drop_chars (count p) (String.◌++◌ p s) ≡ s
drop_chars-append [] s =
    ap (λ (n : ℕ). drop_chars n (String.◌++◌ "" s)) length-nil ∙ unfold drop_chars in nil-append s
drop_chars-append (c ∷ p) s =
    ap (drop_chars (count (c ∷ p))) (cons-append c p s)
    ∙ drop_chars-cons c p (String.◌++◌ p s)
    ∙ drop_chars-append p s

remove_first-cons :
    (p : String) (c : Char) (s : String)
    → starts_with p (c ∷ s) ≡ true
    → remove_first p (c ∷ s) ≡ drop_chars (count p) (c ∷ s)
unfolding remove_first
remove_first-cons p c s h = rw h refl

remove_first-append : (p s : String) → (p == "") ≡ false → remove_first p (String.◌++◌ p s) ≡ s
remove_first-append [] s h = absurd (ground arith)
remove_first-append (c ∷ p) s h =
    let joined = cons-append c p s in
    ap (remove_first (c ∷ p)) joined
    ∙ remove_first-cons (c ∷ p) c (String.◌++◌ p s)
        (ap (starts_with (c ∷ p)) (sym joined) ∙ starts_with-append (c ∷ p) s)
    ∙ ap (drop_chars (count (c ∷ p))) (sym joined)
    ∙ drop_chars-append (c ∷ p) s

-- A request that is encoded decodes to itself, if `btoa` makes base64 text and the codec of the
-- platform reads what it wrote.
pub decode-encode_presentation_request :
    (codec : RequestCodec) (req : PresentationRequest)
    → IsBase64 (codec.to_base64 req)
    → codec.from_base64 (codec.to_base64 req) ≡ some req
    → decode_presentation_request codec (encode_presentation_request codec req) ≡ some req
unfolding decode_presentation_request encode_presentation_request
decode-encode_presentation_request codec req b reads =
    ap (λ (r : String). codec.from_base64 (url_unsafe r))
      (remove_first-append scheme (url_safe (codec.to_base64 req)) refl)
    ∙ ap codec.from_base64 (url_unsafe-url_safe (codec.to_base64 req) b)
    ∙ reads
