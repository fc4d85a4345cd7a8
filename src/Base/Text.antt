-- ===== src/Base/Text.antt =====
-- Go strings as lists of code points (all text reaches the code through a JSON decoder, which makes
-- it valid UTF-8), and the functions of `strings` that the code calls. Case mapping covers ASCII
-- and the three code points outside it that map into ASCII; other cased letters stay as they are.
use Prim.Native.Nat.{ℕ, ◌+◌, ◌-◌}
use Prim.Native.Char.{code}
use Prim.Native.String.{String}
use mathlib.Core.Path.{◌≡◌, refl}
use mathlib.Core.Bool.{Bool, true, false, ◌&&◌, ◌||◌}
use mathlib.Core.List.{List, [], ◌∷◌, reverse, map}
use native.Mathlib.Omega.{arith}
use textile_erp_cloud.Base.Tests.{leb, ltb, ◌==◌, if◌then◌else◌}

abbrev pub Text : Type 0
Text = List ℕ

-- The code points of a literal.
abbrev pub codes : String → Text
codes String.[] = []
codes (String.◌∷◌ c s) = code c ∷ codes s

-- `==` on strings.
unfoldable pub text_eq : Text → Text → Bool
text_eq [] [] = true
text_eq (a ∷ s) (b ∷ t) = (a == b) && text_eq s t
text_eq _ _ = false

pub text_eq_sound : (s t : Text) → text_eq s t ≡ true → s ≡ t
unfolding text_eq
text_eq_sound [] [] h = refl
text_eq_sound (a ∷ s) (b ∷ t) h = ground (arith, text_eq_sound s t)
text_eq_sound [] (b ∷ t) h = cc
text_eq_sound (a ∷ s) [] h = cc

pub text_eq_refl : (s : Text) → text_eq s s ≡ true
unfolding text_eq
text_eq_refl [] = refl
text_eq_refl (a ∷ s) = ground (arith, text_eq_refl s)

-- `s == ""`.
abbrev pub is_empty : Text → Bool
is_empty [] = true
is_empty (c ∷ s) = false

-- `len(s)`: the number of bytes in UTF-8.
rune_len : ℕ → ℕ
rune_len c = if ltb c 0x80 then 1 else if ltb c 0x800 then 2 else if ltb c 0x10000 then 3 else 4

unfoldable pub byte_len : Text → ℕ
unfolding rune_len
byte_len [] = 0
byte_len (c ∷ s) = rune_len c + byte_len s

-- `unicode.IsSpace`.
unfoldable pub is_space : ℕ → Bool
is_space c =
    (leb 9 c && leb c 13)
    || c == 0x20
    || c == 0x85
    || c == 0xa0
    || c == 0x1680
    || (leb 0x2000 c && leb c 0x200a)
    || c == 0x2028
    || c == 0x2029
    || c == 0x202f
    || c == 0x205f
    || c == 0x3000

drop_spaces : Text → Text
drop_spaces [] = []
drop_spaces (c ∷ s) = if is_space c then drop_spaces s else c ∷ s

-- `strings.TrimSpace`.
unfoldable pub trim_space : Text → Text
unfolding drop_spaces is_space
trim_space s = reverse (drop_spaces (reverse (drop_spaces s)))

-- `strings.ToUpper`; the dotless i and the long s are the others that map into ASCII.
upper_rune : ℕ → ℕ
upper_rune c =
    if leb b'a' c && leb c b'z'
    then c - 32
    else if c == 0x131
    then b'I'
    else if c == 0x17f
    then b'S'
    else c

unfoldable pub to_upper : Text → Text
unfolding upper_rune
to_upper = map upper_rune

-- `strings.ToLower`; the Kelvin sign and the dotted capital I map into ASCII.
lower_rune : ℕ → ℕ
lower_rune c =
    if leb b'A' c && leb c b'Z'
    then c + 32
    else if c == 0x212a
    then b'k'
    else if c == 0x130
    then b'i'
    else c

unfoldable pub to_lower : Text → Text
unfolding lower_rune
to_lower = map lower_rune

-- `strings.EqualFold`, by one representative for each class.
fold_rune : ℕ → ℕ
fold_rune c =
    if leb b'A' c && leb c b'Z'
    then c + 32
    else if c == 0x212a
    then b'k'
    else if c == 0x17f
    then b's'
    else c

fold_text : Text → Text
unfolding fold_rune
fold_text = map fold_rune

unfoldable pub equal_fold : Text → Text → Bool
unfolding fold_text text_eq
equal_fold s t = text_eq (fold_text s) (fold_text t)

pub equal_fold_refl : (s : Text) → equal_fold s s ≡ true
unfolding equal_fold
equal_fold_refl s = text_eq_refl (fold_text s)

text_eq_sym : (s t : Text) → text_eq s t ≡ text_eq t s
unfolding text_eq
text_eq_sym [] [] = refl
text_eq_sym (a ∷ s) (b ∷ t) = ground (arith, text_eq_sym s t)
text_eq_sym [] (b ∷ t) = refl
text_eq_sym (a ∷ s) [] = refl

pub equal_fold_sym : (s t : Text) → equal_fold s t ≡ equal_fold t s
unfolding equal_fold
equal_fold_sym s t = text_eq_sym (fold_text s) (fold_text t)

-- Texts that are equal up to case are both blank or neither is.
pub equal_fold-is_empty : (s t : Text) → equal_fold s t ≡ true → is_empty s ≡ is_empty t
unfolding equal_fold fold_text text_eq
equal_fold-is_empty [] [] h = refl
equal_fold-is_empty (a ∷ s) (b ∷ t) h = refl
equal_fold-is_empty [] (b ∷ t) h = absurd (cc)
equal_fold-is_empty (a ∷ s) [] h = absurd (cc)

-- Two texts that are a third up to case are one another's.
pub equal_fold-join :
    (a b c : Text) → equal_fold a c ≡ true → equal_fold b c ≡ true → equal_fold a b ≡ true
unfolding equal_fold
equal_fold-join a b c h k =
    rw (text_eq_sound (fold_text a) (fold_text c) h, text_eq_sound (fold_text b) (fold_text c) k)
      (text_eq_refl (fold_text c))

trims : to_upper (trim_space (codes " in ")) ≡ codes "IN"
unfolding trim_space to_upper
trims = refl
