-- ===== src/Base/Bools.antt =====
-- What a Boolean conjunction or disjunction says of its parts.
use textile_erp_cloud.Base.{◌≡◌, Bool, true, false, ◌&&◌, ◌||◌, arith}

pub and_both : (b c : Bool) → b ≡ true → c ≡ true → (b && c) ≡ true
and_both b c h e = ground arith

pub and_left : (b c : Bool) → (b && c) ≡ true → b ≡ true
and_left b c h = ground arith

pub and_right : (b c : Bool) → (b && c) ≡ true → c ≡ true
and_right b c h = ground arith

pub or_left : (b c : Bool) → b ≡ true → (b || c) ≡ true
or_left b c h = ground arith

pub or_right : (b c : Bool) → c ≡ true → (b || c) ≡ true
or_right b c h = ground arith

pub or_neither : (b c : Bool) → b ≡ false → c ≡ false → (b || c) ≡ false
or_neither b c h e = ground arith

pub or_false : (b c : Bool) → (b || c) ≡ false → (b ≡ false) × (c ≡ false)
or_false b c h = ground arith
