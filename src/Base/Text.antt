-- ===== src/Base/Text.antt =====
-- Go strings as bytes: literals, prefixes, `strings.Split`, `strings.TrimSpace`.
use Prim.Native.Char.{code}
use Prim.Native.String.{String}
use Prim.Native.Nat.{ℕ, zero, suc, ◌-◌}
use mathlib.Core.Path.{◌≡◌, refl}
use mathlib.Core.Bool.{Bool, true, false, ◌&&◌, ◌||◌}
use mathlib.Core.List.{List, [], ◌∷◌, ◌++◌, map, reverse}
use mathlib.Core.Option.{Option, none, some}
use native.Mathlib.Omega.{arith}
use terminal_todo.Base.Lists.{length}
use terminal_todo.Base.Tests.{Bytes, nat_eq, nat_eq_iff, leb, if◌then◌else◌}

-- The bytes of an ASCII literal.
abbrev pub codes : String → Bytes
codes String.[] = []
codes (String.◌∷◌ c s) = code c ∷ codes s

-- `strings.HasPrefix` and `strings.TrimPrefix` in one: the rest behind the prefix.
unfoldable pub cut_prefix : Bytes → Bytes → Option Bytes
cut_prefix [] s = some s
cut_prefix (p ∷ ps) [] = none
cut_prefix (p ∷ ps) (c ∷ s) = if nat_eq p c then cut_prefix ps s else none

pub cut_prefix-append : (p s : Bytes) → cut_prefix p (p ++ s) ≡ some s
unfolding cut_prefix
cut_prefix-append [] s = refl
cut_prefix-append (c ∷ p) s = ground (arith, cut_prefix-append p s)

pub cut_prefix_sound : (p s : Bytes) {rest : Bytes} → cut_prefix p s ≡ some rest → s ≡ p ++ rest
unfolding cut_prefix
cut_prefix_sound [] s {rest} h = ground arith
cut_prefix_sound (c ∷ p) [] h = absurd (cc)
cut_prefix_sound (c ∷ p) (d ∷ s) {rest} h = ground (arith, cut_prefix_sound p s {rest = rest})

-- Puts a byte in front of the first piece.
abbrev onto_first : ℕ → List Bytes → List Bytes
onto_first c [] = (c ∷ []) ∷ []
onto_first c (p ∷ ps) = (c ∷ p) ∷ ps

-- `strings.Split` at a one-byte separator.
unfoldable pub split : ℕ → Bytes → List Bytes
split sep [] = [] ∷ []
split sep (c ∷ s) = let rest = split sep s in if nat_eq c sep then [] ∷ rest else onto_first c rest

abbrev pub Lacks : ℕ → Bytes → Type 0
Lacks sep [] = Unit {0}
Lacks sep (c ∷ s) = (nat_eq c sep ≡ false) × Lacks sep s

pub split-one : (sep : ℕ) (s : Bytes) → Lacks sep s → split sep s ≡ s ∷ []
unfolding split
split-one sep [] h = refl
split-one sep (c ∷ s) h = ground (arith, split-one sep s h.1)

pub split-two :
    (sep : ℕ) (s t : Bytes) → Lacks sep s → Lacks sep t → split sep (s ++ sep ∷ t) ≡ s ∷ t ∷ []
unfolding split
split-two sep [] t h k = ground (arith, split-one sep t k)
split-two sep (c ∷ s) t h k = ground (arith, split-two sep s t h.1 k)

split-ne_nil : (sep : ℕ) (u : Bytes) → split sep u ≡ [] → ⊥
unfolding split
split-ne_nil sep [] h = cc
split-ne_nil sep (c ∷ u) h = go (split sep u) refl
  where
    go : (ps : List Bytes) → split sep u ≡ ps → ⊥
    go [] e = ground arith
    go (p ∷ ps) e = ground arith

split-one_sound : (sep : ℕ) (u t : Bytes) → split sep u ≡ t ∷ [] → u ≡ t
unfolding split
split-one_sound sep [] t h = cc
split-one_sound sep (c ∷ u) t h = go (split sep u) refl (split-one_sound sep u)
  where
    go :
        (ps : List Bytes)
        → split sep u ≡ ps
        → ((t' : Bytes) → split sep u ≡ t' ∷ [] → u ≡ t')
        → c ∷ u ≡ t
    go [] e ih = ground (arith, split-ne_nil sep u)
    go (p ∷ []) e ih = ground (arith, ih p)
    go (p ∷ q ∷ ps) e ih = ground arith

-- Two pieces come from one separator.
pub split-two_sound : (sep : ℕ) (u s t : Bytes) → split sep u ≡ s ∷ t ∷ [] → u ≡ s ++ sep ∷ t
unfolding split
split-two_sound sep [] s t h = absurd (cc)
split-two_sound sep (c ∷ u) s t h = go (split sep u) refl (split-two_sound sep u)
  where
    go :
        (ps : List Bytes)
        → split sep u ≡ ps
        → ((s' t' : Bytes) → split sep u ≡ s' ∷ t' ∷ [] → u ≡ s' ++ sep ∷ t')
        → c ∷ u ≡ s ++ sep ∷ t
    go [] e ih = ground arith
    go (p ∷ []) e ih = ground (arith, split-one_sound sep u p, nat_eq_iff c sep)
    go (p ∷ q ∷ ps) e ih = ground (arith, ih p q, nat_eq_iff c sep)

-- The UTF-8 forms of the runes of `unicode.IsSpace`.
abbrev space_runes : List Bytes
space_runes =
    (9 ∷ [])
    ∷ (10 ∷ [])
    ∷ (11 ∷ [])
    ∷ (12 ∷ [])
    ∷ (13 ∷ [])
    ∷ (32 ∷ [])
    ∷ (0xC2 ∷ 0x85 ∷ [])
    ∷ (0xC2 ∷ 0xA0 ∷ [])
    ∷ (0xE1 ∷ 0x9A ∷ 0x80 ∷ [])
    ∷ (0xE2 ∷ 0x80 ∷ 0x80 ∷ [])
    ∷ (0xE2 ∷ 0x80 ∷ 0x81 ∷ [])
    ∷ (0xE2 ∷ 0x80 ∷ 0x82 ∷ [])
    ∷ (0xE2 ∷ 0x80 ∷ 0x83 ∷ [])
    ∷ (0xE2 ∷ 0x80 ∷ 0x84 ∷ [])
    ∷ (0xE2 ∷ 0x80 ∷ 0x85 ∷ [])
    ∷ (0xE2 ∷ 0x80 ∷ 0x86 ∷ [])
    ∷ (0xE2 ∷ 0x80 ∷ 0x87 ∷ [])
    ∷ (0xE2 ∷ 0x80 ∷ 0x88 ∷ [])
    ∷ (0xE2 ∷ 0x80 ∷ 0x89 ∷ [])
    ∷ (0xE2 ∷ 0x80 ∷ 0x8A ∷ [])
    ∷ (0xE2 ∷ 0x80 ∷ 0xA8 ∷ [])
    ∷ (0xE2 ∷ 0x80 ∷ 0xA9 ∷ [])
    ∷ (0xE2 ∷ 0x80 ∷ 0xAF ∷ [])
    ∷ (0xE2 ∷ 0x81 ∷ 0x9F ∷ [])
    ∷ (0xE3 ∷ 0x80 ∷ 0x80 ∷ [])
    ∷ []

-- The text behind the first listed prefix that it has.
cut_any : List Bytes → Bytes → Option Bytes
unfolding cut_prefix
cut_any [] s = none
cut_any (p ∷ ps) s =
    let rest = cut_any ps s in elim (cut_prefix p s) [ none ↦ rest | some t ↦ some t ]

-- On fuel, the length of the text: each round takes a byte at least.
strip : ℕ → List Bytes → Bytes → Bytes
unfolding cut_any
strip zero ps s = s
strip (suc fuel) ps s = elim (cut_any ps s) [ none ↦ s | some t ↦ strip fuel ps t ]

-- `strings.TrimSpace`.
unfoldable pub trim_space : Bytes → Bytes
unfolding strip
trim_space s =
    let front = strip (length s) space_runes s in
    reverse (strip (length front) (map reverse space_runes) (reverse front))

trim_space_example : trim_space (codes "  a b ") ≡ codes "a b"
unfolding trim_space
trim_space_example = refl

-- What a UTF-8 reader expects: so many bytes more of a rune, the next one in a range.
record Utf8 : Type 0 where
  remaining : ℕ
  low : ℕ
  high : ℕ

abbrev expect : ℕ → ℕ → ℕ → Option Utf8
expect n low high = some (record { remaining = n; low = low; high = high })

abbrev between : ℕ → ℕ → ℕ → Bool
between low high c = leb low c && leb c high

first_byte : ℕ → Option Utf8
first_byte c =
    if leb c 0x7F
    then expect 0 0 0
    else if between 0xC2 0xDF c
    then expect 1 0x80 0xBF
    else if nat_eq c 0xE0
    then expect 2 0xA0 0xBF
    else if nat_eq c 0xED
    then expect 2 0x80 0x9F
    else if between 0xE1 0xEF c
    then expect 2 0x80 0xBF
    else if nat_eq c 0xF0
    then expect 3 0x90 0xBF
    else if between 0xF1 0xF3 c
    then expect 3 0x80 0xBF
    else if nat_eq c 0xF4
    then expect 3 0x80 0x8F
    else none

utf8_step : Utf8 → ℕ → Option Utf8
unfolding first_byte
utf8_step u c =
    if nat_eq u.remaining 0
    then first_byte c
    else if between u.low u.high c
    then expect (u.remaining - 1) 0x80 0xBF
    else none

utf8_from : Option Utf8 → Bytes → Bool
unfolding utf8_step
utf8_from none s = false
utf8_from (some u) [] = nat_eq u.remaining 0
utf8_from (some u) (c ∷ s) = utf8_from (utf8_step u c) s

-- `utf8.ValidString`.
unfoldable pub valid_utf8 : Bytes → Bool
unfolding utf8_from
valid_utf8 s = utf8_from (expect 0 0 0) s

valid_utf8_example : valid_utf8 (0xC2 ∷ 0xB5 ∷ 65 ∷ []) ≡ true
unfolding valid_utf8
valid_utf8_example = refl

-- `strings.Contains` at one byte.
unfoldable pub contains_byte : ℕ → Bytes → Bool
contains_byte b [] = false
contains_byte b (c ∷ s) = nat_eq b c || contains_byte b s
