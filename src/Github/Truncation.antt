-- ===== src/Github/Truncation.antt =====
-- `maybe_truncate_comment` of ci-bench-runner/src/github.rs.
use rustls_bench_app.Base.{
  ℕ, zero, suc, ◌+◌, ◌-◌, ◌<◌, ◌≤◌, ◌≡◌, refl, ap, none, some, [], ◌∷◌, ◌++◌, ◌⊎◌, ltb,
  if◌then◌else◌, arith, Option-cases, Bool-cases, inl, inr,
}
use rustls_bench_app.Base.Text.{
  Text, codes, utf8_len, byte_len, utf8_len-pos, byte_len-append, prefix_of_bytes,
}
use rustls_bench_app.Base.Result.{Result, ok, panic}

abbrev pub github_comment_max_len : ℕ
github_comment_max_len = 65536

unfoldable pub truncation_note : Text
truncation_note =
    codes "_Note: the comment has been truncated to respect GitHub's size limit of 65536 bytes._"

-- The comment as it is left. `truncate` panics inside a character.
unfoldable pub maybe_truncate_comment : Text → Result Text
maybe_truncate_comment body =
    if ltb github_comment_max_len (byte_len body)
    then elim (prefix_of_bytes (github_comment_max_len - byte_len truncation_note) body) [
      | none ↦ panic
      | some prefix ↦ ok (truncation_note ++ prefix)
    ]
    else ok body

note_len : byte_len truncation_note ≡ 85
unfolding byte_len truncation_note
note_len = refl

prefix_of_bytes_sound :
    (n : ℕ) (s p : Text)
    → prefix_of_bytes n s ≡ some p
    → (byte_len p ≡ n) × ((t : Text) × (s ≡ p ++ t))
unfolding prefix_of_bytes byte_len
prefix_of_bytes_sound zero s p h = let e : p ≡ [] = cc in rw e ((refl, (s, refl)))
prefix_of_bytes_sound (suc n) [] p h = cc
prefix_of_bytes_sound (suc n) (c ∷ cs) p h =
    elim (Option-cases (prefix_of_bytes (suc n - utf8_len c) cs)) [
      | inl stuck ↦ absurd (ground arith)
      | inr (q, found) ↦
          let (len, rest) = prefix_of_bytes_sound (suc n - utf8_len c) cs q found in
          let e : (p ≡ c ∷ q) × (utf8_len c ≤ suc n) = ground arith in
          rw e.0 (omega arith, (rest.0, ap (◌∷◌ c) rest.1))
    ]

prefix_of_bytes_complete :
    (n : ℕ) (p t : Text) → byte_len p ≡ n → prefix_of_bytes n (p ++ t) ≡ some p
unfolding prefix_of_bytes byte_len
prefix_of_bytes_complete zero [] t e = refl
prefix_of_bytes_complete zero (c ∷ p) t e = absurd (omega (arith, utf8_len-pos c))
prefix_of_bytes_complete (suc n) [] t e = absurd (omega arith)
prefix_of_bytes_complete (suc n) (c ∷ p) t e =
    ground (arith, prefix_of_bytes_complete (suc n - utf8_len c) p t)

-- No prefix ends inside a character.
prefix_of_bytes_inside :
    (n : ℕ) (p : Text) (c : ℕ) (t : Text)
    → byte_len p < n
    → n < byte_len p + utf8_len c
    → prefix_of_bytes n (p ++ c ∷ t) ≡ none
unfolding prefix_of_bytes byte_len
prefix_of_bytes_inside zero p c t h k = absurd (omega arith)
prefix_of_bytes_inside (suc n) [] c t h k = ground arith
prefix_of_bytes_inside (suc n) (d ∷ p) c t h k =
    ground (arith, prefix_of_bytes_inside (suc n - utf8_len d) p c t)

-- A comment that comes out fits GitHub's limit of 65536 bytes. It is the one that went in where that fits, and
-- otherwise the note followed by as long a prefix as fills the limit.
pub maybe_truncate_comment_fits :
    (body out : Text)
    → maybe_truncate_comment body ≡ ok out
    → (byte_len out ≤ 65536)
      × ((byte_len body ≤ 65536) × (out ≡ body)
          ⊎ (65536 < byte_len body)
            × (byte_len out ≡ 65536)
            × ((prefix : Text) × (rest : Text) × (body ≡ prefix ++ rest)
                × (out ≡ truncation_note ++ prefix)))
unfolding maybe_truncate_comment
maybe_truncate_comment_fits body out h =
    elim (Bool-cases (ltb github_comment_max_len (byte_len body))) [
      | inr fits ↦ ground arith
      | inl long ↦
          let room = github_comment_max_len - byte_len truncation_note in
          elim (Option-cases (prefix_of_bytes room body)) [
            | inl stuck ↦ absurd (ground arith)
            | inr (q, found) ↦
                let (len, rest) = prefix_of_bytes_sound room body q found in
                let e : out ≡ truncation_note ++ q = ground arith in
                let full : byte_len out ≡ github_comment_max_len =
                  rw e (omega (arith, note_len, byte_len-append truncation_note q)) in
                (omega arith, inr (ground arith, full, (q, rest.0, rest.1, e)))
          ]
    ]

-- A comment that is too long and has a character of several bytes across the cut is not shortened:
-- the function panics.
pub truncation_panics_inside_character :
    (p : Text) (c : ℕ) (t : Text)
    → github_comment_max_len < byte_len (p ++ c ∷ t)
    → byte_len p + byte_len truncation_note < github_comment_max_len
    → github_comment_max_len < byte_len p + byte_len truncation_note + utf8_len c
    → maybe_truncate_comment (p ++ c ∷ t) ≡ panic
unfolding maybe_truncate_comment
truncation_panics_inside_character p c t long before inside = ground (
  arith,
  note_len,
  prefix_of_bytes_inside (github_comment_max_len - byte_len truncation_note) p c t,
)
