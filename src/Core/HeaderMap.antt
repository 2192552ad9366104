-- ===== src/Core/HeaderMap.antt =====
-- The header map of the crate http, as the list of its entries with names in lower case.
use bot_marshal.Prelude.{
  ℕ, Text, Option, none, some, not, List, [], ◌∷◌, keep, text_eq, if◌then◌else◌,
}

abbrev pub Headers : Type 0
Headers = List (Text × List ℕ)

-- `HeaderMap::remove`: every entry of the name.
abbrev pub remove : Text → Headers → Headers
remove name headers = keep (λ h. not (text_eq h.0 name)) headers

-- `HeaderMap::get`: the first value.
unfoldable pub header_get : Text → Headers → Option (List ℕ)
header_get name [] = none
header_get name ((n, v) ∷ headers) = if text_eq n name then some v else header_get name headers

-- `HeaderMap::insert`: one value in the place of all.
unfoldable pub header_insert : Text → List ℕ → Headers → Headers
header_insert name value [] = (name, value) ∷ []
header_insert name value ((n, v) ∷ headers) =
    let later = header_insert name value headers in
    if text_eq n name then (name, value) ∷ remove name headers else (n, v) ∷ later
