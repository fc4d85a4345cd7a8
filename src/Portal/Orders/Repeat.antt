-- ===== src/Portal/Orders/Repeat.antt =====
-- An order that is sent twice.
use textile_erp_cloud.Base.{
  ◌^◌, ◌-◌, ◌≡◌, refl, sym, ap, ◌∙◌, inl, inr, Bool, true, false, ◌&&◌, List, [], ◌∷◌, ◌++◌, arith,
  Bool-cases, if◌then◌else◌, Option,
}
use textile_erp_cloud.Base.Int.{ℤ, pos, negsuc, ltb_ℤ, leb_ℤ, beq_ℤ, ◌≤ℤ◌, ◌-ℤ◌, int_laws}
use textile_erp_cloud.Base.Result.{Result, ok, err}
use textile_erp_cloud.Base.Text.{Text, text_eq_refl, equal_fold_refl}
use textile_erp_cloud.Domain.Duration.{since}
use textile_erp_cloud.Portal.Orders.{
  Wish, Order, Request, OrderError, clean, check_order, new_order, is_pending, adopt, same_bool,
  same_wish, ten_minutes, is_repeat, Scan, known, fresh, scan, store, create_order,
}

same_bool_refl : (b : Bool) → same_bool b b ≡ true
same_bool_refl true = refl
same_bool_refl false = refl

beq_ℤ_refl : (a : ℤ) → beq_ℤ a a ≡ true
beq_ℤ_refl a = ground arith

same_wish_refl : (w : Wish) → same_wish w w ≡ true
same_wish_refl w =
    rw
      (
        equal_fold_refl w.company_name,
        text_eq_refl w.mobile,
        same_bool_refl w.allow_financial,
        same_bool_refl w.allow_operational,
        same_bool_refl w.allow_weaving,
        beq_ℤ_refl w.employee_count,
        beq_ℤ_refl w.machine_count,
        beq_ℤ_refl w.unit_count,
        same_bool_refl w.is_trial,
      )
      refl

-- What an order keeps when a customer is found for it.
abbrev IsLike : Order → Order → Type 0
IsLike a b = (a.wish ≡ b.wish) × (a.status ≡ b.status) × (a.created_at ≡ b.created_at)

IsLike-trans : (a b c : Order) → IsLike a b → IsLike b c → IsLike a c
IsLike-trans a b c (w, s, t) (w', s', t') = (w ∙ w', s ∙ s', t ∙ t')

adopt-IsLike : (item order : Order) → IsLike (adopt item order) order
unfolding adopt
adopt-IsLike item order = ground arith

-- What is too old stays too old.
abbrev held : ℤ → ℤ
held d =
    if ltb_ℤ (pos (2 ^ 63 - 1)) d
    then pos (2 ^ 63 - 1)
    else if ltb_ℤ d (negsuc (2 ^ 63 - 1))
    then negsuc (2 ^ 63 - 1)
    else d

held_mono : (d e : ℤ) → d ≤ℤ e → held d ≤ℤ held e
held_mono d e h = ground arith

since-later : (now later t : ℤ) → now ≤ℤ later → since now t ≤ℤ since later t
unfolding since
since-later now later t h = held_mono (now -ℤ t) (later -ℤ t) (omega int_laws)

still_old : (a b : ℤ) → a ≤ℤ b → leb_ℤ a ten_minutes ≡ false → leb_ℤ b ten_minutes ≡ false
still_old a b h k = ground arith

not_yet : (p w l k : Bool) → (l ≡ false → k ≡ false) → (p && l && w) ≡ false → (p && k && w) ≡ false
not_yet p w l k h e = ground arith

no_repeat :
    (now later : ℤ) (item a b : Order)
    → now ≤ℤ later
    → b.wish ≡ a.wish
    → is_repeat now item a ≡ false
    → is_repeat later item b ≡ false
no_repeat now later item a b h w e = rw w (
    not_yet (is_pending item.status) (same_wish item.wish a.wish)
      (leb_ℤ (since now item.created_at) ten_minutes)
      (leb_ℤ (since later item.created_at) ten_minutes)
      (still_old (since now item.created_at) (since later item.created_at)
        (since-later now later item.created_at h))
      e)

fresh-same : (a b : Order) → Path Scan (fresh a) (fresh b) → a ≡ b
fresh-same a b h = cc

known-same : (a b : Order) → Path Scan (known a) (known b) → a ≡ b
known-same a b h = cc

now_as_well : (p w l k : Bool) → k ≡ true → (p && l && w) ≡ true → (p && k && w) ≡ true
now_as_well p w l k h e = ground arith

-- A repeat is found again while it is recent.
scan_known :
    (now later : ℤ) (a b o : Order) (items : List Order)
    → now ≤ℤ later
    → b.wish ≡ a.wish
    → leb_ℤ (since later o.created_at) ten_minutes ≡ true
    → scan now a items ≡ known o
    → scan later b items ≡ known o
scan_known now later a b o [] h w recent e = cc
scan_known now later a b o (item ∷ items) h w recent e =
    let a' = adopt item a in
    let b' = adopt item b in
    let w' : b'.wish ≡ a'.wish = (adopt-IsLike item b).0 ∙ w ∙ sym (adopt-IsLike item a).0 in
    elim (Bool-cases (is_repeat now item a')) [
      | inr miss ↦
          rw (no_repeat now later item a' b' h w' miss)
            (scan_known now later a' b' o items h w' recent (rw miss at e))
      | inl hit ↦
          let same = known-same item o (rw hit at e) in
          let found : is_repeat later item b' ≡ true = rw w' (
            now_as_well (is_pending item.status) (same_wish item.wish a'.wish)
              (leb_ℤ (since now item.created_at) ten_minutes)
              (leb_ℤ (since later item.created_at) ten_minutes) (rw same recent) hit) in
          rw found (ap known same)
    ]

-- An order that was new is found afterwards.
scan_fresh :
    (now later : ℤ) (a b o : Order) (items : List Order)
    → now ≤ℤ later
    → b.wish ≡ a.wish
    → is_pending o.status ≡ true
    → o.wish ≡ a.wish
    → leb_ℤ (since later o.created_at) ten_minutes ≡ true
    → (n : Order) → scan now a items ≡ fresh n
    → scan later b (items ++ (o ∷ [])) ≡ known o
scan_fresh now later a b o [] h w p same recent n e =
    let b' = adopt o b in
    let wish : b'.wish ≡ o.wish = (adopt-IsLike o b).0 ∙ w ∙ sym same in
    let found : is_repeat later o b' ≡ true = rw (p, recent, wish) (same_wish_refl o.wish) in
    rw found refl
scan_fresh now later a b o (item ∷ items) h w p same recent n e =
    let a' = adopt item a in
    let b' = adopt item b in
    let w' : b'.wish ≡ a'.wish = (adopt-IsLike item b).0 ∙ w ∙ sym (adopt-IsLike item a).0 in
    elim (Bool-cases (is_repeat now item a')) [
      | inl hit ↦ absurd (cc (rw hit at e))
      | inr miss ↦ rw (no_repeat now later item a' b' h w' miss) (
          scan_fresh now later a' b' o items h w' p (same ∙ sym (adopt-IsLike item a).0) recent n
            (rw miss at e))
    ]

fresh-IsLike :
    (now : ℤ) (a n : Order) (items : List Order) → scan now a items ≡ fresh n → IsLike n a
fresh-IsLike now a n [] e = let same : a ≡ n = fresh-same a n e in rw same (refl, refl, refl)
fresh-IsLike now a n (item ∷ items) e = elim (Bool-cases (is_repeat now item (adopt item a))) [
  | inl hit ↦ absurd (cc (rw hit at e))
  | inr miss ↦
      IsLike-trans n (adopt item a) a (fresh-IsLike now (adopt item a) n items (rw miss at e))
        (adopt-IsLike item a)
]

-- The second scan over what the first one has stored.
scan_again :
    (now later : ℤ) (a b : Order) (items : List Order) (s : Scan)
    → now ≤ℤ later
    → b.wish ≡ a.wish
    → is_pending a.status ≡ true
    → scan now a items ≡ s
    → leb_ℤ (since later (store s items).0.created_at) ten_minutes ≡ true
    → scan later b (store s items).1 ≡ known (store s items).0
scan_again now later a b items (known o) h w p e recent =
    scan_known now later a b o items h w recent e
scan_again now later a b items (fresh o) h w p e recent =
    let (wish, status, created) = fresh-IsLike now a o items e in
    scan_fresh now later a b o items h w (ap is_pending status ∙ p) wish recent o e

new_order-same :
    (now later : ℤ) (id other : Text) (req : Request)
    → ((new_order later other req).wish ≡ (new_order now id req).wish)
      × (is_pending (new_order now id req).status ≡ true)
unfolding new_order
new_order-same now later id other req = (refl, refl)

-- Sending a request again no earlier and within ten minutes of the creation of the order that the
-- first call returned gives that order again, whatever new id is drawn, and stores nothing.
pub create_twice :
    (parse_address : Text → Option Text) (now later : ℤ) (id other : Text) (raw : Request)
    (items : List Order) (order : Order)
    → now ≤ℤ later
    → (create_order parse_address now id raw items).0 ≡ ok order
    → leb_ℤ (since later order.created_at) ten_minutes ≡ true
    → create_order parse_address later other raw (create_order parse_address now id raw items).1
      ≡ (ok order, (create_order parse_address now id raw items).1)
unfolding create_order
create_twice parse_address now later id other raw items order h = go (check_order parse_address req)
  where
    req : Request
    req = clean raw

    again : List Order → Result OrderError (Unit {0}) → Result OrderError Order × List Order
    again stored x = elim x as (λ _. Result OrderError Order × List Order) [
      | err e ↦ (err e, stored)
      | ok _ ↦ (
        ok (store (scan later (new_order later other req) stored) stored).0,
        (store (scan later (new_order later other req) stored) stored).1,
      )
    ]

    first : Result OrderError (Unit {0}) → Result OrderError Order × List Order
    first x = elim x as (λ _. Result OrderError Order × List Order) [
      | err e ↦ (err e, items)
      | ok _ ↦ (
        ok (store (scan now (new_order now id req) items) items).0,
        (store (scan now (new_order now id req) items) items).1,
      )
    ]

    go :
        (x : Result OrderError (Unit {0}))
        → (first x).0 ≡ ok order
        → leb_ℤ (since later order.created_at) ten_minutes ≡ true
        → again (first x).1 x ≡ (ok order, (first x).1)
    go (err e) ran recent = absurd (cc ran)
    go (ok _) ran recent =
        let found = scan now (new_order now id req) items in
        let same : (store found items).0 ≡ order = cc ran in
        let (wish, waits) = new_order-same now later id other req in
        let twice =
          scan_again now later (new_order now id req) (new_order later other req) items found h wish
            waits refl (rw same recent) in
        rw (twice, same) refl
