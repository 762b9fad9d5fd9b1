-- ===== src/Github/Signature.antt =====
-- `verify_webhook_signature` of ci-bench-runner/src/github.rs.
use rustls_bench_app.Base.{
  ℕ, zero, suc, ◌-◌, ◌<◌, ◌≡◌, refl, Bool, true, false, Option, none, some, [], ◌∷◌, ◌++◌, ◌↔◌, leb,
  if◌then◌else◌, arith,
}
use rustls_bench_app.Base.Text.{Text, text_eq, text_eq_iff, utf8_len, utf8_len-pos, byte_len}
use rustls_bench_app.Base.Result.{Result, ok, panic}
use rustls_bench_app.Db.Schema.{Bytes}

-- `hex::decode`, and the tag of `Hmac<Sha256>` for a key and a message.
pub record Crypto : Type 0 where
  pub decode_hex : Text → Option Bytes
  pub hmac_sha256 : Bytes → Bytes → Bytes

-- `&s[n..]`; `none` is the panic where `n` is past the end or no character boundary.
unfoldable pub suffix_from : ℕ → Text → Option Text
unfolding utf8_len
suffix_from zero s = some s
suffix_from (suc n) [] = none
suffix_from (suc n) (c ∷ cs) =
    let rest = suffix_from (suc n - utf8_len c) cs in
    if leb (utf8_len c) (suc n) then rest else none

module _ (crypto : Crypto) where
  -- `verify_slice` compares whole tags.
  unfoldable pub check_tag : Bytes → Bytes → Option Bytes → Bool
  unfolding text_eq
  check_tag body secret none = false
  check_tag body secret (some signature_bytes) =
      text_eq (crypto.hmac_sha256 secret body) signature_bytes

  unfoldable pub verify_webhook_signature : Bytes → Text → Bytes → Result Bool
  unfolding suffix_from check_tag
  verify_webhook_signature body signature secret = elim (suffix_from 7 signature) [
    | none ↦ panic
    | some hex ↦ ok (check_tag body secret (crypto.decode_hex hex))
  ]

suffix_from-append : (n : ℕ) (p h : Text) → byte_len p ≡ n → suffix_from n (p ++ h) ≡ some h
unfolding suffix_from byte_len
suffix_from-append zero [] h e = refl
suffix_from-append zero (c ∷ p) h e = absurd (omega (arith, utf8_len-pos c))
suffix_from-append (suc n) [] h e = absurd (omega arith)
suffix_from-append (suc n) (c ∷ p) h e = ground (arith, suffix_from-append (suc n - utf8_len c) p h)

suffix_from-short : (n : ℕ) (s : Text) → byte_len s < n → suffix_from n s ≡ none
unfolding suffix_from byte_len
suffix_from-short zero s h = absurd (omega arith)
suffix_from-short (suc n) [] h = refl
suffix_from-short (suc n) (c ∷ s) h = ground (arith, suffix_from-short (suc n - utf8_len c) s)

check_tag_iff :
    (crypto : Crypto) (body secret : Bytes) (o : Option Bytes)
    → (check_tag crypto body secret o ≡ true) ↔ (o ≡ some (crypto.hmac_sha256 secret body))
unfolding check_tag
check_tag_iff crypto body secret none = ((λ h. cc), (λ h. cc))
check_tag_iff crypto body secret (some t) =
    let same = text_eq_iff (crypto.hmac_sha256 secret body) t in
    ((λ h. cc (same.0 h)), (λ h. same.1 (cc)))

module _ (crypto : Crypto) (body secret : Bytes) where
  -- Behind a prefix of seven bytes, a signature is accepted exactly when it is the hexadecimal
  -- form of the body's tag under the secret.
  pub accepts_iff :
      (prefix hex : Text)
      → byte_len prefix ≡ 7
      → (verify_webhook_signature crypto body (prefix ++ hex) secret ≡ ok true)
        ↔ (crypto.decode_hex hex ≡ some (crypto.hmac_sha256 secret body))
  unfolding verify_webhook_signature
  accepts_iff prefix hex e =
      let tag = check_tag_iff crypto body secret (crypto.decode_hex hex) in
      (
        (λ h. ground (arith, suffix_from-append 7 prefix hex e, tag)),
        (λ h. ground (arith, suffix_from-append 7 prefix hex e, tag)),
      )

  -- The prefix is not looked at: with any other of seven bytes the answer is the same, though
  -- signatures are said to start with `sha256=`.
  pub prefix_ignored :
      (prefix other hex : Text)
      → byte_len prefix ≡ 7
      → byte_len other ≡ 7
      → verify_webhook_signature crypto body (prefix ++ hex) secret
        ≡ verify_webhook_signature crypto body (other ++ hex) secret
  unfolding verify_webhook_signature
  prefix_ignored prefix other hex e f =
      ground (arith, suffix_from-append 7 prefix hex e, suffix_from-append 7 other hex f)

  -- A signature of fewer than seven bytes is not refused: the function panics.
  pub short_signature_panics :
      (signature : Text)
      → byte_len signature < 7
      → verify_webhook_signature crypto body signature secret ≡ panic
  unfolding verify_webhook_signature
  short_signature_panics signature h = ground (arith, suffix_from-short 7 signature h)
