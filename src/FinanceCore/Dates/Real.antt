-- ===== src/FinanceCore/Dates/Real.antt =====
-- What `AccountingDate` of financecore/service.go returns.
use textile_erp_cloud.Base.{
  ℕ, zero, suc, ◌-◌, ◌≤◌, ◌≡◌, refl, ◌∙◌, inl, inr, Bool, true, false, ◌&&◌, Option, none, some,
  List, [], ◌∷◌, arith, Bool-cases, &&-true, leb, length,
}
use textile_erp_cloud.Base.Text.{Text, is_empty, trim_space}
use mathlib.Core.Path.{subst}
use mathlib.Core.Option.{some-injective}
use textile_erp_cloud.FinanceCore.Jalali.{jalali_to_gregorian, month_days}
use textile_erp_cloud.FinanceCore.Jalali.Months.{nth, jalali_to_gregorian-IsDate}
use textile_erp_cloud.FinanceCore.Dates.{
  Date, ◌>>=◌, guard, is_day, is_tail, date_prefix, layout_date, fields, atoi, before_space,
  numbers_date, parts_date, western, accounting_date,
}

-- A day of the proleptic Gregorian calendar.
abbrev pub IsRealDate : Date → Type 0
IsRealDate (y, m, d) = (1 ≤ m) × (m ≤ 12) × (1 ≤ d) × (d ≤ nth (m - 1) (month_days y))

-- What a chain that returns has passed.
guard-some :
    {A : Type 0} (b : Bool) (k : Option A) (a : A) → guard b k ≡ some a → (b ≡ true) × (k ≡ some a)
guard-some true k a h = (refl, h)
guard-some false k a h = cc

>>=-some :
    {A B : Type 0} (m : Option A) (f : A → Option B) (b : B)
    → (m >>= f) ≡ some b
    → (a : A) × (m ≡ some a) × (f a ≡ some b)
>>=-some none f b h = cc
>>=-some (some a) f b h = (a, refl, h)

is_day_lem :
    (m d : ℕ) (ns : List ℕ)
    → is_day m d ns ≡ true
    → (1 ≤ m) × (m ≤ length ns) × (1 ≤ d) × (d ≤ nth (m - 1) ns)
unfolding is_day
is_day_lem m d [] h = cc
is_day_lem zero d (n ∷ ns) h = cc
is_day_lem (suc zero) d (n ∷ ns) h = ground arith
is_day_lem (suc (suc m)) d (n ∷ ns) h =
    let (a, b, c, e) = is_day_lem (suc m) d ns h in
    let here : suc m - 1 ≡ m = omega arith in
    let next : suc (suc m) - 1 ≡ suc m = omega arith in
    (omega arith, omega arith, c, rw next (rw here at e))

is_day-IsRealDate : (y m d : ℕ) → is_day m d (month_days y) ≡ true → IsRealDate (y, m, d)
unfolding month_days
is_day-IsRealDate y m d h = is_day_lem m d (month_days y) h

layout_date-IsRealDate :
    (tail : Text → Bool) (s : Text) (date : Date) → layout_date tail s ≡ some date → IsRealDate date
unfolding layout_date
layout_date-IsRealDate tail s date h =
    let (((y, m, d), rest), _, h1) = >>=-some (date_prefix s) _ date h in
    let (ok, same) = guard-some (is_day m d (month_days y) && tail rest) (some (y, m, d)) date h1 in
    subst IsRealDate (some-injective _ _ same) (is_day-IsRealDate y m d (&&-true _ _ ok).0)

jalali-IsRealDate : (y m d : ℕ) → IsRealDate (jalali_to_gregorian y m d)
jalali-IsRealDate y m d = let (a, b, c, e, _) = jalali_to_gregorian-IsDate y m d in (a, b, c, e)

numbers_date-IsRealDate :
    (y m d : ℕ) (date : Date) → numbers_date y m d ≡ some date → IsRealDate date
unfolding numbers_date
numbers_date-IsRealDate y m d date h =
    let (_, h1) = guard-some (leb 1 m && leb m 12 && leb 1 d && leb d 31) _ date h in
    elim (Bool-cases (leb 1700 y)) [
      | inl gregorian ↦
          let (ok, same) =
            guard-some (leb y 9999 && is_day m d (month_days y)) (some (y, m, d)) date
              (rw gregorian at h1) in
          subst IsRealDate (some-injective _ _ same) (is_day-IsRealDate y m d (&&-true _ _ ok).1)
      | inr jalali ↦
          subst IsRealDate (some-injective _ _ (rw jalali at h1)) (jalali-IsRealDate y m d)
    ]

parts_date-IsRealDate :
    (parts : List Text) (date : Date) → parts_date parts ≡ some date → IsRealDate date
unfolding parts_date
parts_date-IsRealDate (a ∷ b ∷ c ∷ []) date h =
    let (y, _, h1) = >>=-some (atoi a) _ date h in
    let (m, _, h2) = >>=-some (atoi b) _ date h1 in
    let (d, _, h3) = >>=-some (atoi c) _ date h2 in numbers_date-IsRealDate y m d date h3
parts_date-IsRealDate [] date h = cc
parts_date-IsRealDate (a ∷ []) date h = cc
parts_date-IsRealDate (a ∷ b ∷ []) date h = cc
parts_date-IsRealDate (a ∷ b ∷ c ∷ d ∷ parts) date h = cc

-- Whatever text `AccountingDate` accepts, in an ISO layout or as Gregorian or Jalali numbers, the
-- date that it returns is a real day of the Gregorian calendar.
pub accounting_date-IsRealDate :
    (text : Text) (date : Date) → accounting_date text ≡ some date → IsRealDate date
unfolding accounting_date
accounting_date-IsRealDate text date h = go whole short refl refl h
  where
    value : Text
    value = trim_space (western text)

    first : Text
    first = trim_space (before_space value)

    whole : Option Date
    whole = layout_date is_tail value

    short : Option Date
    short = layout_date is_empty first

    go :
        (a b : Option Date)
        → layout_date is_tail value ≡ a
        → layout_date is_empty first ≡ b
        → (elim a as (λ _. Option Date) [
          | some d ↦ some d
          | none ↦ elim b [ some d ↦ some d | none ↦ parts_date (fields [] first) ]
        ])
          ≡ some date
        → IsRealDate date
    go (some d) b ha hb k = layout_date-IsRealDate is_tail value date (ha ∙ k)
    go none (some d) ha hb k = layout_date-IsRealDate is_empty first date (hb ∙ k)
    go none none ha hb k = parts_date-IsRealDate (fields [] first) date k
