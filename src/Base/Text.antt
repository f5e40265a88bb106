-- ===== src/Base/Text.antt =====
-- A JavaScript string as its list of UTF-16 code units, with the operations the source calls on it.
pub mod Laws
use Prim.Native.Char.{code}
use Prim.Native.String.{String}
use Prim.Native.Nat.{ℕ, ◌+◌, ◌-◌}
use mathlib.Core.Bool.{Bool, true, false, not, ◌&&◌, ◌||◌}
use mathlib.Core.Option.{Option, none, some}
use mathlib.Core.List.{List, [], ◌∷◌, ◌++◌}
use orders_microservice.Base.Tests.{ltb, leb, ◌==◌, if◌then◌else◌}
use orders_microservice.Base.Lists.{length, all, any}

abbrev pub Text : Type 0
Text = List ℕ

-- A literal of the source; all of them are ASCII, so code points are code units.
abbrev pub lit : String → Text
lit String.[] = []
lit (String.◌∷◌ c s) = code c ∷ lit s

abbrev pub is_empty {ℓ} : {A : Type ℓ} → List A → Bool
is_empty [] = true
is_empty (_ ∷ _) = false

-- `===` on strings
unfoldable pub text_eq : Text → Text → Bool
text_eq [] [] = true
text_eq (a ∷ s) (b ∷ t) = a == b && text_eq s t
text_eq _ _ = false

unfoldable pub mem_text : Text → List Text → Bool
mem_text t [] = false
mem_text t (u ∷ us) = text_eq u t || mem_text t us

-- WhiteSpace and LineTerminator: what `trim` removes and `\s` matches
unfoldable pub is_space : ℕ → Bool
is_space c =
    (leb 9 c && leb c 13)
    || c == 32
    || c == 0xa0
    || c == 0x1680
    || (leb 0x2000 c && leb c 0x200a)
    || c == 0x2028
    || c == 0x2029
    || c == 0x202f
    || c == 0x205f
    || c == 0x3000
    || c == 0xfeff

unfoldable pub trim_start : Text → Text
unfolding is_space
trim_start [] = []
trim_start (c ∷ s) = let rest = trim_start s in if is_space c then rest else c ∷ s

-- `c` in front of a text that is already trimmed at its end
unfoldable pub push_trimmed : ℕ → Text → Text
unfolding is_space
push_trimmed c [] = if is_space c then [] else c ∷ []
push_trimmed c (d ∷ s) = c ∷ d ∷ s

unfoldable pub trim_end : Text → Text
unfolding push_trimmed
trim_end [] = []
trim_end (c ∷ s) = push_trimmed c (trim_end s)

unfoldable pub trim : Text → Text
unfolding trim_start trim_end
trim s = trim_end (trim_start s)

-- The lower case of one code unit, exact wherever it holds an ASCII unit: the letters A to Z, the
-- Kelvin sign, and I with a dot. Another unit stands for itself.
unfoldable pub lower_unit : ℕ → Text
lower_unit c =
    if leb b'A' c && leb c b'Z'
    then (c + 32) ∷ []
    else if c == 0x212a
    then b'k' ∷ []
    else if c == 0x130
    then b'i' ∷ 0x307 ∷ []
    else c ∷ []

unfoldable pub to_lower_case : Text → Text
unfolding lower_unit
to_lower_case [] = []
to_lower_case (c ∷ s) = lower_unit c ++ to_lower_case s

-- the ligatures from U+FB00 to U+FB06
unfoldable pub ligature : ℕ → Text
ligature n =
    if n == 0
    then lit "FF"
    else if n == 1
    then lit "FI"
    else if n == 2
    then lit "FL"
    else if n == 3
    then lit "FFI"
    else if n == 4
    then lit "FFL"
    else lit "ST"

-- The upper case of one code unit, exact wherever it is made of ASCII units: the letters a to z,
-- dotless i, long s, sharp s and the Latin ligatures. Another unit stands for itself.
unfoldable pub upper_unit : ℕ → Text
unfolding ligature
upper_unit c =
    if leb b'a' c && leb c b'z'
    then (c - 32) ∷ []
    else if c == 0x131
    then lit "I"
    else if c == 0x17f
    then lit "S"
    else if c == 0xdf
    then lit "SS"
    else if leb 0xfb00 c && leb c 0xfb06
    then ligature (c - 0xfb00)
    else c ∷ []

unfoldable pub to_upper_case : Text → Text
unfolding upper_unit
to_upper_case [] = []
to_upper_case (c ∷ s) = upper_unit c ++ to_upper_case s

unfoldable pub starts_with : Text → Text → Bool
starts_with s [] = true
starts_with [] (_ ∷ _) = false
starts_with (c ∷ s) (d ∷ p) = c == d && starts_with s p

unfoldable pub includes : Text → Text → Bool
unfolding starts_with
includes [] p = starts_with [] p
includes (c ∷ s) p = starts_with (c ∷ s) p || includes s p

abbrev pub is_upper : ℕ → Bool
is_upper c = leb b'A' c && leb c b'Z'

abbrev pub is_lower : ℕ → Bool
is_lower c = leb b'a' c && leb c b'z'

abbrev pub is_digit : ℕ → Bool
is_digit c = leb b'0' c && leb c b'9'

-- the ASCII folding of a regular expression with the flag `i`
abbrev pub fold_unit : ℕ → ℕ
fold_unit c = if is_upper c then c + 32 else c

-- `/[\r\n\t]/.test(s)`
unfoldable pub has_control : Text → Bool
has_control [] = false
has_control (c ∷ s) = c == 13 || c == 10 || c == 9 || has_control s

abbrev pub starts_with_space : Text → Bool
starts_with_space [] = false
starts_with_space (c ∷ _) = is_space c

-- the pattern `p` read without regard to case, and one more white space
unfoldable pub starts_folded : Text → Text → Bool
unfolding is_space
starts_folded s [] = starts_with_space s
starts_folded [] (_ ∷ _) = false
starts_folded (c ∷ s) (d ∷ p) = fold_unit c == d && starts_folded s p

-- `/bearer\s+/i.test(s)`
unfoldable pub has_bearer : Text → Bool
unfolding starts_folded
has_bearer [] = false
has_bearer (c ∷ s) = starts_folded (c ∷ s) (lit "bearer") || has_bearer s

-- `value || undefined` for a string
abbrev pub non_empty : Text → Option Text
non_empty [] = none
non_empty (c ∷ s) = some (c ∷ s)

-- `value || ''`
abbrev pub text_or_empty : Option Text → Text
text_or_empty none = []
text_or_empty (some s) = s

-- `value || fallback` for a string
abbrev pub text_or : Text → Text → Text
text_or [] fallback = fallback
text_or (c ∷ s) fallback = c ∷ s

-- the first value whose name is the text: `LIST.includes(t) ? t : null`
unfoldable pub find_named {ℓ} : {A : Type ℓ} → (A → Text) → List A → Text → Option A
find_named name [] t = none
find_named name (a ∷ as') t = if text_eq (name a) t then some a else find_named name as' t
