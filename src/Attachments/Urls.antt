-- ===== src/Attachments/Urls.antt =====
-- The URL search of `extractReferencedFileIds` in
-- src/domain/file-attachment/service/file-attachment.service.ts, and the two URL conversions of
-- src/global/upload/s3.service.ts.
pub mod Keys
use aideep_websocket.Common.{
  ℕ, zero, suc, ◌-◌, Text, codes, Bool, not, ◌&&◌, ◌||◌, Option, none, some, List, [], ◌∷◌, ◌++◌,
  Result, ok, err, invalid_url, ◌==◌, leb, is_empty, if◌then◌else◌,
}
use aideep_websocket.Common.Items

-- `\s` of a JavaScript regular expression, and what `trim` removes.
unfoldable pub is_space : ℕ → Bool
is_space c =
    (leb 9 c && leb c 13)
    || (c == 32)
    || (c == 160)
    || (c == 5760)
    || (leb 8192 c && leb c 8202)
    || (c == 8232)
    || (c == 8233)
    || (c == 8239)
    || (c == 8287)
    || (c == 12288)
    || (c == 65279)

-- [^"'\s)\\]
unfoldable pub is_url_char : ℕ → Bool
unfolding is_space
is_url_char c = not ((c == 34) || (c == 39) || is_space c || (c == 41) || (c == 92))

unfoldable pub take_url : Text → Text
take_url [] = []
take_url (c ∷ t) = let rest = take_url t in if is_url_char c then c ∷ rest else []

-- What follows a prefix, if the text begins with it.
unfoldable pub strip_prefix : Text → Text → Option Text
strip_prefix [] t = some t
strip_prefix (p ∷ ps) [] = none
strip_prefix (p ∷ ps) (c ∷ t) = let rest = strip_prefix ps t in if p == c then rest else none

-- The match of the pattern at the head of a text.
unfoldable pub match_url : Text → Text → Option Text
match_url prefix t = elim (strip_prefix prefix t) [
  | none ↦ none
  | some rest ↦ let url = take_url rest in if is_empty url then none else some (prefix ++ url)
]

abbrev pub length_of : Text → ℕ
length_of [] = 0
length_of (c ∷ t) = suc (length_of t)

-- text.match(urlPattern) under the flag `g`: `skip` units belong to the match before.
unfoldable pub match_urls : Text → ℕ → Text → List Text
match_urls prefix skip [] = []
match_urls prefix (suc k) (c ∷ t) = match_urls prefix k t
match_urls prefix zero (c ∷ t) = elim (match_url prefix (c ∷ t)) [
  | none ↦ match_urls prefix zero t
  | some url ↦ url ∷ match_urls prefix (length_of url - 1) t
]

module _ (bucket region : Text) where
  unfoldable pub get_public_url : Text → Text
  get_public_url key =
      codes "https://" ++ (bucket ++ (codes ".s3." ++ (region ++ (codes ".amazonaws.com/" ++ key))))

  unfoldable pub extract_key_from_url : Text → Result Text
  extract_key_from_url url = elim (strip_prefix (get_public_url []) url) [
    | none ↦ err (invalid_url url)
    | some key ↦ ok key
  ]

  -- urls.map((url) => extractKeyFromUrl(url))
  unfoldable pub extract_keys : List Text → Result (List Text)
  extract_keys [] = ok []
  extract_keys (url ∷ urls) = elim (extract_key_from_url url) [
    | err e ↦ err e
    | ok key ↦ elim (extract_keys urls) [ err e ↦ err e | ok keys ↦ ok (key ∷ keys) ]
  ]

-- [...new Set(keys)]
unfoldable pub distinct : List Text → List Text
distinct [] = []
distinct (x ∷ xs) = x ∷ Items.delete x (distinct xs)
