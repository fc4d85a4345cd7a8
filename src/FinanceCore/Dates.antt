-- ===== src/FinanceCore/Dates.antt =====
-- financecore/service.go: `AccountingDate` and `AccountingClock`, with the layouts of `time.Parse`
-- that they try. The result is the calendar date, which is all that a DATE column keeps.
pub mod Real
use textile_erp_cloud.Base.{
  ℕ, zero, suc, ◌+◌, ◌-◌, ◌*◌, ◌^◌, ◌≡◌, refl, Bool, true, false, not, ◌&&◌, ◌||◌, Option, none,
  some, List, [], ◌∷◌, ◌++◌, map, ltb, leb, ◌==◌, if◌then◌else◌,
}
use textile_erp_cloud.Base.Text.{Text, codes, is_empty, byte_len, trim_space, is_space}
use textile_erp_cloud.FinanceCore.Jalali.{month_days, jalali_to_gregorian}

abbrev pub Date : Type 0
Date = ℕ × ℕ × ℕ

infixl 5 ◌>>=◌
abbrev pub ◌>>=◌ : {A B : Type 0} → Option A → (A → Option B) → Option B
none >>= f = none
some a >>= f = f a

abbrev pub guard : {A : Type 0} → Bool → Option A → Option A
guard true k = k
guard false k = none

is_digit : ℕ → Bool
is_digit c = leb b'0' c && leb c b'9'

-- The replacer of both functions: Persian and Arabic digits become ASCII digits.
western_digit : ℕ → ℕ
western_digit c =
    if leb 0x6f0 c && leb c 0x6f9
    then c - 0x6f0 + b'0'
    else if leb 0x660 c && leb c 0x669
    then c - 0x660 + b'0'
    else c

unfoldable pub western : Text → Text
unfolding western_digit
western = map western_digit

-- Exactly `n` digits.
fixed_digits : ℕ → ℕ → Text → Option (ℕ × Text)
unfolding is_digit
fixed_digits zero acc s = some (acc, s)
fixed_digits (suc n) acc [] = none
fixed_digits (suc n) acc (c ∷ s) = guard (is_digit c) (fixed_digits n (acc * 10 + (c - b'0')) s)

-- One or two digits.
short_digits : Text → Option (ℕ × Text)
unfolding fixed_digits
short_digits s = elim (fixed_digits 2 0 s) [ some r ↦ some r | none ↦ fixed_digits 1 0 s ]

literal : ℕ → Text → Option Text
literal c [] = none
literal c (d ∷ s) = guard (d == c) (some s)

drop_digits : Text → Text
unfolding is_digit
drop_digits [] = []
drop_digits (c ∷ s) = if is_digit c then drop_digits s else c ∷ s

-- `time.Parse` takes a fraction after the seconds, also where the layout has none.
fraction : Text → Text
unfolding is_digit drop_digits
fraction (p ∷ c ∷ s) =
    if (p == b'.' || p == b',') && is_digit c then drop_digits (c ∷ s) else p ∷ c ∷ s
fraction s = s

-- The day of a month.
unfoldable pub is_day : ℕ → ℕ → List ℕ → Bool
is_day m d [] = false
is_day zero d (n ∷ ns) = false
is_day (suc zero) d (n ∷ ns) = leb 1 d && leb d n
is_day (suc (suc m)) d (n ∷ ns) = is_day (suc m) d ns

-- "2006-01-02"
pub date_prefix : Text → Option (Date × Text)
unfolding fixed_digits literal
date_prefix s0 = do
  (y, s1) ← fixed_digits 4 0 s0
  s2 ← literal b'-' s1
  (m, s3) ← fixed_digits 2 0 s2
  s4 ← literal b'-' s3
  (d, s5) ← fixed_digits 2 0 s4
  guard (leb 1 m && leb m 12) (some ((y, m, d), s5))

-- "15:04"
clock_prefix : Text → Option Text
unfolding short_digits literal
clock_prefix s0 = do
  (h, s1) ← short_digits s0
  s2 ← literal b':' s1
  (m, s3) ← fixed_digits 2 0 s2
  guard (ltb h 24 && ltb m 60) (some s3)

-- ":05", with a fraction
seconds : Text → Option Text
unfolding fixed_digits literal fraction
seconds s0 = do
  s1 ← literal b':' s0
  (s, s2) ← fixed_digits 2 0 s1
  guard (ltb s 60) (some (fraction s2))

-- "Z07:00"
zone : Text → Bool
unfolding fixed_digits literal
zone [] = false
zone (c ∷ s0) =
    if c == b'Z'
    then is_empty s0
    else (c == b'+' || c == b'-')
      && (elim (do
        (h, s1) ← fixed_digits 2 0 s0
        s2 ← literal b':' s1
        (m, s3) ← fixed_digits 2 0 s2
        guard (leb h 24 && leb m 60 && is_empty s3) (some s3)) [ none ↦ false | some _ ↦ true ])

-- What may follow the date in one of the six layouts.
pub is_tail : Text → Bool
unfolding clock_prefix seconds zone
is_tail [] = true
is_tail (c ∷ s0) = (c == b' ' || c == b'T') && (elim (clock_prefix s0) [
  | none ↦ false
  | some s1 ↦
      is_empty s1
      || (elim (seconds s1) [ none ↦ false | some s2 ↦ is_empty s2 || (c == b'T' && zone s2) ])
])

-- The loop over the layouts: they agree on the date.
unfoldable pub layout_date : (Text → Bool) → Text → Option Date
unfolding date_prefix is_day
layout_date tail s = do
  ((y, m, d), rest) ← date_prefix s
  guard (is_day m d (month_days y) && tail rest) (some (y, m, d))

pub before_space : Text → Text
before_space [] = []
before_space (c ∷ s) = if c == b' ' then [] else c ∷ before_space s

is_separator : ℕ → Bool
is_separator c = c == b'/' || c == b'-' || c == b'.'

push : Text → List Text → List Text
push [] out = out
push (c ∷ field) out = (c ∷ field) ∷ out

-- `strings.FieldsFunc`: `field` is the one that is being read.
pub fields : Text → Text → List Text
unfolding push is_separator
fields field [] = push field []
fields field (c ∷ s) =
    if is_separator c then push field (fields [] s) else fields (field ++ (c ∷ [])) s

digits_value : ℕ → Text → Option ℕ
unfolding is_digit
digits_value acc [] = some acc
digits_value acc (c ∷ s) = guard (is_digit c) (digits_value (acc * 10 + (c - b'0')) s)

-- `strconv.Atoi` of a text without `-`.
pub atoi : Text → Option ℕ
unfolding digits_value
atoi [] = none
atoi (c ∷ s) = do
  n ←
      (if c == b'+'
        then (elim s [ [] ↦ none | d ∷ r ↦ digits_value 0 (d ∷ r) ])
        else digits_value 0 (c ∷ s))
  guard (ltb n (2 ^ 63)) (some n)

-- A date that is written as three numbers.
unfoldable pub numbers_date : ℕ → ℕ → ℕ → Option Date
unfolding is_day
numbers_date y m d = guard (leb 1 m && leb m 12 && leb 1 d && leb d 31) (
    if leb 1700 y
    then guard (leb y 9999 && is_day m d (month_days y)) (some (y, m, d))
    else some (jalali_to_gregorian y m d))

unfoldable pub parts_date : List Text → Option Date
unfolding atoi
parts_date (a ∷ b ∷ c ∷ []) = do y ← atoi a; m ← atoi b; d ← atoi c; numbers_date y m d
parts_date _ = none

-- `AccountingDate`; `none` is the error.
unfoldable pub accounting_date : Text → Option Date
unfolding western layout_date before_space parts_date fields trim_space numbers_date is_tail
accounting_date text =
    let value = trim_space (western text) in
    let short = trim_space (before_space value) in
    elim (layout_date is_tail value) [
      | some d ↦ some d
      | none ↦ elim (layout_date is_empty short) [
        | some d ↦ some d
        | none ↦ parts_date (fields [] short)
      ]
    ]

-- `strings.Fields`.
words : Text → Text → List Text
unfolding push is_space
words field [] = push field []
words field (c ∷ s) = if is_space c then push field (words [] s) else words (field ++ (c ∷ [])) s

-- `strings.IndexByte(part, ':') > 0`
has_colon : Text → Bool
has_colon [] = false
has_colon (c ∷ s) = c == b':' || has_colon s

is_clock : Text → Bool
unfolding has_colon
is_clock [] = false
is_clock (c ∷ s) = leb 4 (byte_len (c ∷ s)) && not (c == b':') && has_colon s

first_clock : List Text → Text
unfolding is_clock
first_clock [] = []
first_clock (p ∷ ps) = if is_clock p then p else first_clock ps

-- `AccountingClock`: the parts after the first. `none` is the panic of `parts[1:]` on a blank text.
unfoldable pub accounting_clock : Text → Option Text
unfolding western words first_clock byte_len trim_space
accounting_clock text = elim (words [] (trim_space (western text))) [
  | [] ↦ none
  | p ∷ ps ↦ some (first_clock ps)
]

app_date : accounting_date (codes "۱۴۰۵/۰۶/۰۴ ۱۵:۴۹") ≡ some (2026, 8, 26)
unfolding accounting_date jalali_to_gregorian
app_date = refl

app_clock : accounting_clock (codes "۱۴۰۵/۰۶/۰۴ ۱۵:۴۹") ≡ some (codes "15:49")
unfolding accounting_clock
app_clock = refl

iso_date : accounting_date (codes "2026-08-26T15:49:10.5+03:30") ≡ some (2026, 8, 26)
unfolding accounting_date month_days
iso_date = refl

not_a_day : accounting_date (codes "2026-02-30") ≡ none
unfolding accounting_date month_days
not_a_day = refl
