-- ===== src/Text.antt =====
-- Text as the list of its code points: what Python's `str` methods `lower`, `upper` and `strip` do
-- to the fields that the services normalise, and the test of a text for truth.
-- `lower` and `upper` change ASCII and Latin-1 letters, which cover Portuguese.
use Prim.Native.Char.{code}
use econmesh_api.Prelude.{
  ℕ, ◌+◌, ◌-◌, ◌≡◌, refl, Bool, true, false, not, ◌&&◌, ◌||◌, Option, none, some, List, [], ◌∷◌,
  map, String, arith, leb, ◌==◌, if◌then◌else◌,
}

abbrev pub Text : Type 0
Text = List ℕ

-- a literal of the source
abbrev pub codes : String → Text
codes String.[] = []
codes (String.◌∷◌ c s) = code c ∷ codes s

abbrev pub eq_text : Text → Text → Bool
eq_text [] [] = true
eq_text (a ∷ s) (b ∷ t) = a == b && eq_text s t
eq_text _ _ = false

pub eq_text_sound : (s t : Text) → eq_text s t ≡ true → s ≡ t
eq_text_sound [] [] h = refl
eq_text_sound [] (b ∷ t) h = cc
eq_text_sound (a ∷ s) [] h = cc
eq_text_sound (a ∷ s) (b ∷ t) h = ground (arith, eq_text_sound s t)

pub eq_text_refl : (s : Text) → eq_text s s ≡ true
eq_text_refl [] = refl
eq_text_refl (a ∷ s) = ground (arith, eq_text_refl s)

is_upper_code : ℕ → Bool
is_upper_code c = leb 0x41 c && leb c 0x5a || (leb 0xc0 c && leb c 0xde && not (c == 0xd7))

is_lower_code : ℕ → Bool
is_lower_code c = leb 0x61 c && leb c 0x7a || (leb 0xe0 c && leb c 0xfe && not (c == 0xf7))

pub lower_code : ℕ → ℕ
unfolding is_upper_code
lower_code c = if is_upper_code c then c + 32 else c

pub upper_code : ℕ → ℕ
unfolding is_lower_code
upper_code c = if is_lower_code c then c - 32 else c

-- `s.lower()`
unfoldable pub lower : Text → Text
unfolding lower_code
lower s = map lower_code s

-- `s.upper()`
unfoldable pub upper : Text → Text
unfolding upper_code
upper s = map upper_code s

-- the code points that `str.strip` removes
is_space_code : ℕ → Bool
is_space_code c =
    leb 9 c && leb c 13
    || (leb 28 c && leb c 32)
    || c == 0x85
    || c == 0xa0
    || c == 0x1680
    || (leb 0x2000 c && leb c 0x200a)
    || c == 0x2028
    || c == 0x2029
    || c == 0x202f
    || c == 0x205f
    || c == 0x3000

lstrip : Text → Text
lstrip [] = []
lstrip (c ∷ s) = let rest = lstrip s in if is_space_code c then rest else c ∷ s

rstrip : Text → Text
rstrip [] = []
rstrip (c ∷ s) = elim (rstrip s) [ [] ↦ if is_space_code c then [] else c ∷ [] | d ∷ t ↦ c ∷ d ∷ t ]

-- `s.strip()`
unfoldable pub strip : Text → Text
unfolding lstrip rstrip is_space_code
strip s = rstrip (lstrip s)

lower_code_idem : (c : ℕ) → lower_code (lower_code c) ≡ lower_code c
unfolding lower_code
lower_code_idem c = ground arith

pub lower_idem : (s : Text) → lower (lower s) ≡ lower s
unfolding lower
lower_idem [] = refl
lower_idem (c ∷ s) = cc (lower_code_idem c, lower_idem s)

-- `bool(s)` of a text, and of one that may be `None`
abbrev pub nonempty : Text → Bool
nonempty [] = false
nonempty (c ∷ s) = true

abbrev pub truthy : Option Text → Bool
truthy none = false
truthy (some s) = nonempty s

-- `s or t`
abbrev pub or_text : Option Text → Text → Text
or_text o d = elim o [ none ↦ d | some s ↦ if nonempty s then s else d ]
