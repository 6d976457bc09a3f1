-- ===== src/Base/Time.antt =====
-- `time.Duration.String` and `Time.Format(time.RFC3339Nano)` in UTC, for what the code renders.
use Prim.Native.Nat.{ℕ, zero, suc, ◌+◌, ◌-◌, ◌*◌, ◌/◌, ◌%◌}
use mathlib.Core.Path.{◌≡◌, refl}
use mathlib.Core.Bool.{Bool, false, not, ◌||◌}
use mathlib.Core.List.{[], ◌∷◌, ◌++◌}
use terminal_todo.Base.Tests.{Bytes, nat_eq, ltb, leb, if◌then◌else◌}
use terminal_todo.Base.Text.{codes}
use terminal_todo.Base.Decimal.{format}

-- The last `prec` digits as a decimal fraction, with no zeros at its end.
unfoldable pub fraction : ℕ → ℕ → Bytes → Bool → Bytes
fraction zero v out print = if print then b'.' ∷ out else out
fraction (suc prec) v out print =
    let print' = print || not (nat_eq (v % 10) 0) in
    fraction prec (v / 10) (if print' then (b'0' + v % 10) ∷ out else out) print'

clock_part : ℕ → Bytes
unfolding format
clock_part u =
    if ltb 0 (u / 60 / 60)
    then format (u / 60 / 60) ++ (b'h' ∷ (format (u / 60 % 60) ++ b'm' ∷ format (u % 60)))
    else if ltb 0 (u / 60)
    then format (u / 60) ++ b'm' ∷ format (u % 60)
    else format (u % 60)

-- Of nanoseconds.
unfoldable pub duration_string : ℕ → Bytes
unfolding fraction clock_part format
duration_string d =
    if nat_eq d 0
    then codes "0s"
    else if ltb d 1000
    then format d ++ codes "ns"
    else if ltb d 1000000
    then format (d / 1000) ++ (fraction 3 d [] false ++ (0xC2 ∷ 0xB5 ∷ b's' ∷ []))
    else if ltb d 1000000000
    then format (d / 1000000) ++ (fraction 6 d [] false ++ codes "ms")
    else clock_part (d / 1000000000) ++ (fraction 9 d [] false ++ codes "s")

-- At least two digits.
two : ℕ → Bytes
unfolding format
two n = if ltb n 10 then b'0' ∷ format n else format n

four : ℕ → Bytes
unfolding two
four n =
    if ltb n 100 then b'0' ∷ (b'0' ∷ two n) else if ltb n 1000 then b'0' ∷ format n else format n

-- The date of a day counted from 1970-01-01, in the proleptic Gregorian calendar.
date_string : ℕ → Bytes
unfolding four two
date_string days =
    let z : ℕ = days + 719468 in
    let doe : ℕ = z % 146097 in
    let yoe : ℕ = (doe + doe / 36524 - doe / 1460 - doe / 146096) / 365 in
    let doy : ℕ = doe - (365 * yoe + yoe / 4 - yoe / 100) in
    let mp : ℕ = (5 * doy + 2) / 153 in
    let d : ℕ = doy - (153 * mp + 2) / 5 + 1 in
    let m : ℕ = if ltb mp 10 then mp + 3 else mp - 9 in
    let y : ℕ = yoe + 400 * (z / 146097) + (if leb m 2 then 1 else 0) in
    four y ++ (b'-' ∷ (two m ++ b'-' ∷ two d))

-- Of milliseconds since the epoch, below 2 ^ 63.
unfoldable pub timestamp_string : ℕ → Bytes
unfolding date_string two fraction
timestamp_string ms =
    let s : ℕ = ms / 1000 in
    date_string (s / 86400)
    ++ (b'T'
        ∷ (two (s / 3600 % 24)
            ++ (b':'
                ∷ (two (s / 60 % 60)
                    ++ (b':' ∷ (two (s % 60) ++ (fraction 3 ms [] false ++ b'Z' ∷ [])))))))

duration_string_example : duration_string 5400000000000 ≡ codes "1h30m0s"
unfolding duration_string
duration_string_example = refl

duration_string_millis : duration_string 1500000 ≡ codes "1.5ms"
unfolding duration_string
duration_string_millis = refl

timestamp_string_example : timestamp_string 1700000000120 ≡ codes "2023-11-14T22:13:20.12Z"
unfolding timestamp_string
timestamp_string_example = refl
