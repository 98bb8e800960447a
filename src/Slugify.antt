-- ===== src/Slugify.antt =====
-- Slugs for URLs, src/shared/utils/slugify.py. `nfkd` is `unicodedata.normalize("NFKD", value)`.
pub mod Shape
mod Samples
use econmesh_api.Prelude.{
  ℕ, ◌≡◌, Bool, true, false, not, ◌&&◌, ◌||◌, if◌then◌else◌, List, [], ◌∷◌, take, filterb, is_empty,
  ltb, leb, ◌==◌,
}
use econmesh_api.Text.{Text, codes, lower, strip}

-- `-`
abbrev pub dash : ℕ
dash = 45

-- `[a-z0-9]`
abbrev pub is_alnum : ℕ → Bool
is_alnum c = leb 97 c && leb c 122 || (leb 48 c && leb c 57)

-- `normalized.encode("ascii", "ignore").decode("ascii")`
abbrev pub ascii_only : Text → Text
ascii_only s = filterb (λ c. ltb c 128) s

-- `_NON_ALNUM_RE.sub("-", s)`, `in_run` after a character that went into a dash
pub dashed : (in_run : Bool) → Text → Text
dashed in_run [] = []
dashed in_run (c ∷ s) =
    let rest = dashed (not (is_alnum c)) s in
    if is_alnum c then c ∷ rest else if in_run then rest else dash ∷ rest

-- `_MULTI_DASH_RE.sub("-", s)`, `in_run` after a dash
pub single_dashes : (in_run : Bool) → Text → Text
single_dashes in_run [] = []
single_dashes in_run (c ∷ s) =
    let rest = single_dashes (c == dash) s in if c == dash && in_run then rest else c ∷ rest

-- `s.lstrip("-")`
pub lstrip_dash : Text → Text
lstrip_dash [] = []
lstrip_dash (c ∷ s) = let rest = lstrip_dash s in if c == dash then rest else c ∷ s

-- `s.rstrip("-")`, with the character before what is left of the rest
abbrev pub before_stripped : ℕ → Text → Text
before_stripped c [] = if c == dash then [] else c ∷ []
before_stripped c (d ∷ t) = c ∷ d ∷ t

pub rstrip_dash : Text → Text
rstrip_dash [] = []
rstrip_dash (c ∷ s) = before_stripped c (rstrip_dash s)

-- `collapsed`
pub collapsed : (nfkd : Text → Text) → Text → Text
unfolding dashed single_dashes lstrip_dash rstrip_dash
collapsed nfkd value =
    let lowered = strip (lower (ascii_only (nfkd value))) in
    rstrip_dash (lstrip_dash (single_dashes false (dashed false lowered)))

-- `"post"` for a value without letters and digits
abbrev pub or_post : Text → Text
or_post s = if is_empty s then codes "post" else s

unfoldable pub slugify : (nfkd : Text → Text) → (max_length : ℕ) → Text → Text
unfolding collapsed
slugify nfkd max_length value = rstrip_dash (take max_length (or_post (collapsed nfkd value)))
