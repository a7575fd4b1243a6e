-- ===== src/Json/Path.antt =====
-- common.py: get_field, and the path syntax.
use constitutional_agent_tes.Base.{
  ℕ, ◌≡◌, refl, Option, none, some, List, [], ◌∷◌, ◌==◌, if◌then◌else◌, Text, txt,
}
use constitutional_agent_tes.Json.{Value, obj, member}

abbrev pub extend_first : ℕ → List Text → List Text
extend_first c [] = (c ∷ []) ∷ []
extend_first c (s ∷ rest) = (c ∷ s) ∷ rest

-- `path.split(".")`
unfoldable pub split_path : Text → List Text
split_path [] = [] ∷ []
split_path (c ∷ path) =
    let rest = split_path path in if c == b'.' then [] ∷ rest else extend_first c rest

-- The loop of get_field; `none` is `(False, None)`.
unfoldable pub get_segments : Value → List Text → Option Value
get_segments v [] = some v
get_segments (obj fs) (s ∷ rest) = elim (member s fs) [ none ↦ none | some v ↦ get_segments v rest ]
get_segments _ (s ∷ rest) = none

unfoldable pub get_field : Value → Text → Option Value
unfolding get_segments split_path member
get_field document path = get_segments document (split_path path)

splits : split_path (txt "a.b") ≡ txt "a" ∷ txt "b" ∷ []
unfolding split_path
splits = refl
