-- ===== src/Base/Decimal.antt =====
-- `fmt.Sprintf("%d")` and `strconv.ParseUint(s, 10, 64)`.
use Prim.Native.Nat.{ℕ, zero, suc, ◌+◌, ◌-◌, ◌*◌, ◌/◌, ◌%◌, ◌^◌, ◌<◌}
use mathlib.Core.Path.{◌≡◌, refl, ap, ◌∙◌}
use mathlib.Core.Logic.{inl, inr}
use mathlib.Core.Bool.{Bool, true, false, ◌&&◌}
use mathlib.Core.List.{[], ◌∷◌, ◌++◌}
use mathlib.Core.Option.{Option, none, some}
use native.Mathlib.Omega.{arith}
use terminal_todo.Base.Tests.{bytes_eq, Bytes, ltb, leb, if◌then◌else◌, ltb→lt, Bool-cases}
use terminal_todo.Base.Lists.{All, All-append}
use terminal_todo.Base.Text.{Lacks, codes}

abbrev pub u64_mod : ℕ
u64_mod = 2 ^ 64

-- A number below 10 ^ f has at most f digits; below its own successor is enough.
digits : ℕ → ℕ → Bytes
digits zero n = []
digits (suc f) n = elim (ltb n 10) [
  | true ↦ (b'0' + n) ∷ []
  | false ↦ digits f (n / 10) ++ (b'0' + n % 10) ∷ []
]

unfoldable pub format : ℕ → Bytes
unfolding digits
format n = digits (suc n) n

abbrev pub is_digit : ℕ → Bool
is_digit c = leb b'0' c && leb c b'9'

scan : ℕ → Bytes → Option ℕ
scan acc [] = some acc
scan acc (c ∷ s) =
    if is_digit c && ltb (acc * 10 + (c - b'0')) u64_mod
    then scan (acc * 10 + (c - b'0')) s
    else none

unfoldable pub parse_uint : Bytes → Option ℕ
unfolding scan
parse_uint [] = none
parse_uint (c ∷ s) = scan 0 (c ∷ s)

then_scan : Option ℕ → Bytes → Option ℕ
then_scan none s = none
then_scan (some acc) s = scan acc s

scan-append : (acc : ℕ) (s t : Bytes) → scan acc (s ++ t) ≡ then_scan (scan acc s) t
unfolding scan then_scan
scan-append acc [] t = refl
scan-append acc (c ∷ s) t = ground (arith, scan-append (acc * 10 + (c - b'0')) s t)

scan_digit :
    (acc d : ℕ) → d < 10 → acc * 10 + d < u64_mod → scan acc ((b'0' + d) ∷ []) ≡ some (acc * 10 + d)
unfolding scan
scan_digit acc d h k = ground arith

digits_small : (f n : ℕ) → n < 10 → digits (suc f) n ≡ (b'0' + n) ∷ []
unfolding digits
digits_small f n h = ground arith

digits_large : (f n : ℕ) → 9 < n → digits (suc f) n ≡ digits f (n / 10) ++ (b'0' + n % 10) ∷ []
unfolding digits
digits_large f n h = ground arith

scan_single : (d : ℕ) → d < 10 → scan 0 ((b'0' + d) ∷ []) ≡ some d
scan_single d h = scan_digit 0 d h (omega arith) ∙ ap some (omega arith)

scan-digits : (f n : ℕ) → n < f → n < u64_mod → scan 0 (digits f n) ≡ some n
unfolding then_scan scan
scan-digits zero n h k = absurd (omega arith)
scan-digits (suc f) n h k = elim (Bool-cases (ltb n 10)) [
  | inl small ↦ rw (digits_small f n (ltb→lt n 10 small)) (scan_single n (ltb→lt n 10 small))
  | inr large ↦
      let more : 9 < n = ground arith in
      let top : scan 0 (digits f (n / 10)) ≡ some (n / 10) =
        scan-digits f (n / 10) (omega arith) (omega arith) in
      rw (digits_large f n more, scan-append, top, then_scan)
        (scan_digit (n / 10) (n % 10) (omega arith) (omega arith) ∙ ap some (omega arith))
]

parse_uint-snoc : (s : Bytes) (c : ℕ) → parse_uint (s ++ c ∷ []) ≡ scan 0 (s ++ c ∷ [])
unfolding parse_uint
parse_uint-snoc [] c = refl
parse_uint-snoc (d ∷ s) c = refl

-- Printing and parsing again gives the number back.
pub parse_uint-format : (n : ℕ) → n < u64_mod → parse_uint (format n) ≡ some n
unfolding format
parse_uint-format n h = elim (Bool-cases (ltb n 10)) [
  | inl small ↦
      rw (digits_small n n (ltb→lt n 10 small), parse_uint-snoc [] (b'0' + n))
        (scan_single n (ltb→lt n 10 small))
  | inr large ↦ let more : 9 < n = ground arith in let e = digits_large n n more in e-shift e
]
  where
    e-shift :
        digits (suc n) n ≡ digits n (n / 10) ++ (b'0' + n % 10) ∷ []
        → parse_uint (digits (suc n) n) ≡ some n
    e-shift e =
        rw (e, parse_uint-snoc (digits n (n / 10)) (b'0' + n % 10), ← e)
          (scan-digits (suc n) n (omega arith) h)

-- A parsed number is a 64-bit one.
scan-lt : (s : Bytes) (acc : ℕ) {n : ℕ} → acc < u64_mod → scan acc s ≡ some n → n < u64_mod
unfolding scan
scan-lt [] acc a h = ground arith
scan-lt (c ∷ s) acc {n} a h = ground (arith, scan-lt s (acc * 10 + (c - b'0')) {n = n})

pub parse_uint-lt : (s : Bytes) {n : ℕ} → parse_uint s ≡ some n → n < u64_mod
unfolding parse_uint
parse_uint-lt [] h = absurd (cc)
parse_uint-lt (c ∷ s) h = scan-lt (c ∷ s) 0 (omega arith) h

-- A printed number is a row of digits.
digits-AllDigits : (f n : ℕ) → All (λ c. is_digit c ≡ true) (digits f n)
digits-AllDigits zero n = unfold digits in tt
digits-AllDigits (suc f) n = elim (Bool-cases (ltb n 10)) [
  | inl small ↦ rw (digits_small f n (ltb→lt n 10 small)) (ground arith, tt)
  | inr large ↦ rw (digits_large f n (ground arith)) (
      All-append (λ c. is_digit c ≡ true) (digits f (n / 10)) _ (digits-AllDigits f (n / 10))
        (ground arith, tt))
]

pub format-AllDigits : (n : ℕ) → All (λ c. is_digit c ≡ true) (format n)
unfolding format
format-AllDigits n = digits-AllDigits (suc n) n

pub AllDigits-Lacks :
    (sep : ℕ) (s : Bytes) → is_digit sep ≡ false → All (λ c. is_digit c ≡ true) s → Lacks sep s
AllDigits-Lacks sep [] h k = tt
AllDigits-Lacks sep (c ∷ s) h k = (ground arith, AllDigits-Lacks sep s h k.1)

format_example : format 120 ≡ codes "120"
unfolding format
format_example = refl

parse_uint_example : parse_uint (codes "18446744073709551616") ≡ none
unfolding parse_uint
parse_uint_example = refl

snoc-ne_nil : (s : Bytes) (c : ℕ) → bytes_eq (s ++ c ∷ []) [] ≡ false
unfolding bytes_eq
snoc-ne_nil [] c = refl
snoc-ne_nil (d ∷ s) c = refl

pub format-ne_nil : (n : ℕ) → bytes_eq (format n) [] ≡ false
unfolding format
format-ne_nil n = elim (Bool-cases (ltb n 10)) [
  | inl small ↦ rw (digits_small n n (ltb→lt n 10 small)) (snoc-ne_nil [] (b'0' + n))
  | inr large ↦ rw (digits_large n n (ground arith)) (snoc-ne_nil (digits n (n / 10)) _)
]
