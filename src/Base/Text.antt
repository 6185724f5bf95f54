-- ===== src/Base/Text.antt =====
-- Text that the program walks byte by byte: what the Go standard library's `strings` and `strconv`
-- do with it. White space is that of ASCII.
use Prim.Native.Nat.{ℕ, suc, ◌+◌, ◌-◌, ◌*◌}
use Prim.Native.Char.{code}
use Prim.Native.String.{String}
use mathlib.Core.Path.{◌≡◌, refl}
use mathlib.Core.Bool.{Bool, true, false, ◌&&◌, ◌||◌}
use mathlib.Core.List.{List, [], ◌∷◌}
use mathlib.Core.Option.{Option, none, some}
use redis_meter.Base.Tests.{ltb, leb, ◌==◌, if◌then◌else◌}
use redis_meter.Base.Int.{ℤ, pos, negsuc, sub_ℕ, int_limit}

abbrev pub Text : Type 0
Text = List ℕ

abbrev pub codes : String → Text
codes String.[] = []
codes (String.◌∷◌ c s) = code c ∷ codes s

unfoldable pub text_eq : Text → Text → Bool
text_eq [] [] = true
text_eq (a ∷ s) (b ∷ t) = let rest = text_eq s t in if a == b then rest else false
text_eq _ _ = false

abbrev pub before_first : ℕ → List Text → List Text
before_first c [] = (c ∷ []) ∷ []
before_first c (t ∷ ts) = (c ∷ t) ∷ ts

-- `strings.Split` at one byte. The result is never empty.
unfoldable pub split : ℕ → Text → List Text
split sep [] = [] ∷ []
split sep (c ∷ s) = let rest = split sep s in if c == sep then [] ∷ rest else before_first c rest

abbrev pub is_space : ℕ → Bool
is_space c = (leb 9 c && leb c 13) || c == 32

unfoldable pub trim_left : Text → Text
trim_left [] = []
trim_left (c ∷ s) = let rest = trim_left s in if is_space c then rest else c ∷ s

abbrev pub is_empty {ℓ} : {A : Type ℓ} → List A → Bool
is_empty [] = true
is_empty (x ∷ xs) = false

unfoldable pub trim_right : Text → Text
trim_right [] = []
trim_right (c ∷ s) = let rest = trim_right s in if is_space c && is_empty rest then [] else c ∷ rest

-- `strings.TrimSpace`
unfoldable pub trim_space : Text → Text
trim_space s = trim_right (trim_left s)

abbrev pub add_field : Text → List Text → List Text
add_field [] fs = fs
add_field (c ∷ s) fs = (c ∷ s) ∷ fs

-- The field that the text starts in, and the fields behind it.
unfoldable pub fields_of : Text → Text × List Text
fields_of [] = ([], [])
fields_of (c ∷ s) =
    let (field, rest) = fields_of s in
    if is_space c then ([], add_field field rest) else (c ∷ field, rest)

-- `strings.Fields`
unfoldable pub fields : Text → List Text
fields s = let (field, rest) = fields_of s in add_field field rest

unfoldable pub contains : ℕ → Text → Bool
contains c [] = false
contains c (x ∷ s) = let rest = contains c s in if x == c then true else rest

-- `strings.Index` of one byte.
unfoldable pub index : ℕ → Text → Option ℕ
index c [] = none
index c (x ∷ s) =
    let rest = index c s in
    if x == c then some 0 else elim rest [ none ↦ none | some i ↦ some (suc i) ]

-- The text before the first such byte and the text behind it, as `strings.SplitN` with 2 makes them.
unfoldable pub cut_at : ℕ → Text → Option (Text × Text)
cut_at c [] = none
cut_at c (x ∷ s) =
    let rest = cut_at c s in
    if x == c then some ([], s) else elim rest [ none ↦ none | some (a, b) ↦ some (x ∷ a, b) ]

abbrev pub has_prefix : ℕ → Text → Bool
has_prefix c [] = false
has_prefix c (x ∷ s) = x == c

abbrev pub is_digit : ℕ → Bool
is_digit c = leb 48 c && leb c 57

unfoldable pub digits_value : ℕ → Text → Option ℕ
digits_value n [] = some n
digits_value n (c ∷ s) =
    let rest = digits_value (n * 10 + (c - 48)) s in if is_digit c then rest else none

abbrev pub digits : Text → Option ℕ
digits [] = none
digits (c ∷ s) = digits_value 0 (c ∷ s)

-- Out of range, the nearest value and an error; no number, 0 and an error.
abbrev pub positive : Option ℕ → ℤ × Bool
positive none = (pos 0, false)
positive (some n) = if ltb n int_limit then (pos n, true) else (pos (int_limit - 1), false)

abbrev pub negative : Option ℕ → ℤ × Bool
negative none = (pos 0, false)
negative (some n) = if leb n int_limit then (sub_ℕ 0 n, true) else (negsuc (int_limit - 1), false)

-- `strconv.Atoi`, and `strconv.ParseInt` with base 10 and 64 bits: the value, and whether there is
-- no error.
unfoldable pub atoi : Text → ℤ × Bool
atoi [] = (pos 0, false)
atoi (c ∷ s) =
    if c == 45
    then negative (digits s)
    else if c == 43
    then positive (digits s)
    else positive (digits (c ∷ s))

-- `strings.HasPrefix`, with the prefix first, and `strings.Contains`.
unfoldable pub starts_with : Text → Text → Bool
starts_with [] s = true
starts_with (p ∷ ps) [] = false
starts_with (p ∷ ps) (c ∷ s) = let rest = starts_with ps s in if p == c then rest else false

unfoldable pub contains_text : Text → Text → Bool
contains_text [] p = is_empty p
contains_text (c ∷ s) p =
    let rest = contains_text s p in if starts_with p (c ∷ s) then true else rest

split_slots : split 45 (codes "5460-10922") ≡ codes "5460" ∷ codes "10922" ∷ []
unfolding split
split_slots = refl

fields_spaced : fields (codes " a  bc ") ≡ codes "a" ∷ codes "bc" ∷ []
unfolding fields fields_of
fields_spaced = refl

atoi_negative : atoi (codes "-6379") ≡ (negsuc 6378, true)
unfolding atoi digits_value
atoi_negative = refl
