-- ===== src/Wallet/Presentation/Tests.antt =====
-- types/presentation.ts: a request whose base64 text needs both replacements and padding.
use did_wallet_thesis.Common.{◌≡◌, refl, none, some, [], ◌∷◌, arith}
use did_wallet_thesis.Common.Text.{repeat, nth}
use did_wallet_thesis.Wallet.Presentation.{
  PresentationRequest, full_disclosure_requirement, RequestCodec, encode_presentation_request,
  decode_presentation_request, url_safe, map_chars, strip_padding, all_padding,
}
use did_wallet_thesis.Wallet.Presentation.Base64.{IsBase64}
use did_wallet_thesis.Wallet.Presentation.Laws.{decode-encode_presentation_request}

abbrev request : PresentationRequest
request = record {
  id = "r1";
  verifier_did = "did:v";
  purpose = "foreign-id-card";
  challenge = "c";
  expires_at = "2026-01-01T00:00:00.000Z";
  requirements = full_disclosure_requirement "Diploma" ∷ [];
  callback_url = none;
}

-- A stand-in with one text for every request.
abbrev codec : RequestCodec
codec = record { to_base64 = λ req. "+/Q="; from_base64 = λ text. some request }

encoded : encode_presentation_request codec request ≡ "eudi-pres://-_Q"
unfolding encode_presentation_request url_safe map_chars strip_padding all_padding
encoded = refl

text_IsBase64 : IsBase64 "+/Q="
text_IsBase64 = record {
  body = "+/Q";
  padding = 1;
  text = unfold repeat nth in refl;
  plain = refl;
  short = omega arith;
  whole = refl;
}

decode-encode_presentation_request_example :
    decode_presentation_request codec (encode_presentation_request codec request) ≡ some request
decode-encode_presentation_request_example =
    decode-encode_presentation_request codec request text_IsBase64 refl
