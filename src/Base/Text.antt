-- ===== src/Base/Text.antt =====
-- Texts: a Rust `str` as the list of its code points, with the operations that the program uses.
use Prim.Native.Nat.{ℕ, zero, suc, ◌+◌, ◌-◌, ◌*◌, ◌<◌}
use Prim.Native.Char.{code}
use Prim.Native.String.{String}
use mathlib.Core.Path.{◌≡◌, refl}
use mathlib.Core.Logic.{◌↔◌}
use mathlib.Core.Bool.{Bool, true, false, ◌&&◌, ◌||◌}
use mathlib.Core.Option.{Option, none, some}
use mathlib.Core.List.{List, [], ◌∷◌, ◌++◌, reverse}
use native.Mathlib.Omega.{arith}
use rustls_bench_app.Base.Tests.{ltb, leb, ◌==◌, if◌then◌else◌}

abbrev pub Text : Type 0
Text = List ℕ

abbrev pub codes : String → Text
codes String.[] = []
codes (String.◌∷◌ c s) = code c ∷ codes s

unfoldable pub text_eq : Text → Text → Bool
text_eq [] [] = true
text_eq [] (y ∷ ys) = false
text_eq (x ∷ xs) [] = false
text_eq (x ∷ xs) (y ∷ ys) = x == y && text_eq xs ys

pub text_eq_iff : (s t : Text) → (text_eq s t ≡ true) ↔ (s ≡ t)
unfolding text_eq
text_eq_iff [] [] = ((λ _. refl), (λ _. refl))
text_eq_iff [] (y ∷ ys) = ((λ h. cc), (λ h. cc))
text_eq_iff (x ∷ xs) [] = ((λ h. cc), (λ h. cc))
text_eq_iff (x ∷ xs) (y ∷ ys) =
    ((λ h. ground (arith, text_eq_iff xs ys)), (λ h. ground (arith, text_eq_iff xs ys)))

pub text_eq_refl : (s : Text) → text_eq s s ≡ true
text_eq_refl s = (text_eq_iff s s).1 refl

-- The bytes of one character in UTF-8, and of a text: `str::len`.
unfoldable pub utf8_len : ℕ → ℕ
utf8_len c = if ltb c 0x80 then 1 else if ltb c 0x800 then 2 else if ltb c 0x10000 then 3 else 4

unfoldable pub byte_len : Text → ℕ
unfolding utf8_len
byte_len [] = 0
byte_len (c ∷ cs) = utf8_len c + byte_len cs

pub byte_len-append : (s t : Text) → byte_len (s ++ t) ≡ byte_len s + byte_len t
unfolding byte_len
byte_len-append [] t = omega arith
byte_len-append (c ∷ s) t = omega (arith, byte_len-append s t)

pub utf8_len-pos : (c : ℕ) → 0 < utf8_len c
unfolding utf8_len
utf8_len-pos c = ground arith

-- The prefix of exactly `n` bytes; `none` where `n` is no character boundary.
unfoldable pub prefix_of_bytes : ℕ → Text → Option Text
unfolding utf8_len
prefix_of_bytes zero s = some []
prefix_of_bytes (suc n) [] = none
prefix_of_bytes (suc n) (c ∷ cs) =
    let rest = prefix_of_bytes (suc n - utf8_len c) cs in
    if leb (utf8_len c) (suc n) then elim rest [ none ↦ none | some p ↦ some (c ∷ p) ] else none

-- `str::starts_with` and `str::contains` with a text for a pattern.
unfoldable pub starts_with : Text → Text → Bool
starts_with [] s = true
starts_with (p ∷ ps) [] = false
starts_with (p ∷ ps) (c ∷ cs) = p == c && starts_with ps cs

unfoldable pub contains : Text → Text → Bool
unfolding starts_with
contains p [] = starts_with p []
contains p (c ∷ cs) = starts_with p (c ∷ cs) || contains p cs

pub starts_with-append : (p q s : Text) → starts_with (p ++ q) s ≡ true → starts_with p s ≡ true
unfolding starts_with
starts_with-append [] q s h = refl
starts_with-append (a ∷ p) q [] h = h
starts_with-append (a ∷ p) q (c ∷ s) h = ground (arith, starts_with-append p q s)

-- What contains a pattern contains the pattern's beginning.
pub contains-append : (p q s : Text) → contains (p ++ q) s ≡ true → contains p s ≡ true
unfolding contains
contains-append p q [] h = starts_with-append p q [] h
contains-append p q (c ∷ s) h =
    ground (arith, contains-append p q s, starts_with-append p q (c ∷ s))

-- `str::split` by one character: always one piece more than separators.
unfoldable pub push_head : ℕ → List Text → List Text
push_head c [] = (c ∷ []) ∷ []
push_head c (piece ∷ pieces) = (c ∷ piece) ∷ pieces

unfoldable pub split : ℕ → Text → List Text
unfolding push_head
split sep [] = [] ∷ []
split sep (c ∷ cs) = if c == sep then [] ∷ split sep cs else push_head c (split sep cs)

-- `char::is_whitespace`
unfoldable pub is_whitespace : ℕ → Bool
is_whitespace c =
    (leb 9 c && leb c 13)
    || c == 32
    || c == 0x85
    || c == 0xa0
    || c == 0x1680
    || (leb 0x2000 c && leb c 0x200a)
    || c == 0x2028
    || c == 0x2029
    || c == 0x202f
    || c == 0x205f
    || c == 0x3000

unfoldable pub trim_start : Text → Text
unfolding is_whitespace
trim_start [] = []
trim_start (c ∷ cs) = if is_whitespace c then trim_start cs else c ∷ cs

unfoldable pub trim_end : Text → Text
unfolding trim_start
trim_end s = reverse (trim_start (reverse s))

unfoldable pub trim : Text → Text
unfolding trim_start trim_end
trim s = trim_end (trim_start s)

abbrev pub is_digit : ℕ → Bool
is_digit c = leb b'0' c && leb c b'9'

-- `uN::from_str`: an optional plus sign, then digits, below the type's bound.
unfoldable pub parse_digits : ℕ → ℕ → Text → Option ℕ
parse_digits bound acc [] = some acc
parse_digits bound acc (c ∷ cs) =
    let next = acc * 10 + (c - b'0') in
    let rest = parse_digits bound next cs in if is_digit c && ltb next bound then rest else none

unfoldable pub parse_some_digits : ℕ → Text → Option ℕ
unfolding parse_digits
parse_some_digits bound [] = none
parse_some_digits bound (c ∷ cs) = parse_digits bound 0 (c ∷ cs)

unfoldable pub parse_uint : ℕ → Text → Option ℕ
parse_uint bound [] = none
parse_uint bound (c ∷ cs) =
    if c == b'+' then parse_some_digits bound cs else parse_some_digits bound (c ∷ cs)

pub parse_digits-lt :
    (bound acc : ℕ) (s : Text) (n : ℕ) → acc < bound → parse_digits bound acc s ≡ some n → n < bound
unfolding parse_digits
parse_digits-lt bound acc [] n h e = ground arith
parse_digits-lt bound acc (c ∷ cs) n h e =
    ground (arith, parse_digits-lt bound (acc * 10 + (c - b'0')) cs n)

parse_some_digits-lt :
    (bound : ℕ) (s : Text) (n : ℕ) → 0 < bound → parse_some_digits bound s ≡ some n → n < bound
unfolding parse_some_digits
parse_some_digits-lt bound [] n h e = cc
parse_some_digits-lt bound (c ∷ cs) n h e = parse_digits-lt bound 0 (c ∷ cs) n h e

-- A number that parses fits its type.
pub parse_uint-lt :
    (bound : ℕ) (s : Text) (n : ℕ) → 0 < bound → parse_uint bound s ≡ some n → n < bound
unfolding parse_uint
parse_uint-lt bound [] n h e = cc
parse_uint-lt bound (c ∷ cs) n h e =
    ground (arith, parse_some_digits-lt bound (c ∷ cs) n, parse_some_digits-lt bound cs n)
