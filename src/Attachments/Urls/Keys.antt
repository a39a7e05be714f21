-- ===== src/Attachments/Urls/Keys.antt =====
-- src/domain/file-attachment/service/file-attachment.service.ts: from the URLs that are found in a
-- content to the S3 keys of src/global/upload/s3.service.ts.
use mathlib.Core.List.{append_assoc}
use aideep_websocket.Common.{
  ℕ, zero, suc, ◌-◌, Text, not, ◌≡◌, refl, ◌∙◌, true, false, Bool, some, Option-cases, inl, inr,
  List, [], ◌∷◌, ◌++◌, map, ok, arith, is_empty, ◌&&◌,
}
use aideep_websocket.Attachments.Urls.{
  is_url_char, take_url, strip_prefix, match_url, match_urls, length_of, get_public_url,
  extract_key_from_url, extract_keys,
}

-- A text of characters of a URL.
unfoldable pub is_url_text : Text → Bool
is_url_text [] = true
is_url_text (c ∷ t) = is_url_char c && is_url_text t

-- Keys that a URL can carry: not empty, no character that ends a URL.
unfoldable pub are_keys : List Text → Bool
are_keys [] = true
are_keys (key ∷ keys) = not (is_empty key) && (is_url_text key && are_keys keys)

take_url-is_url_text : (t : Text) → is_url_text (take_url t) ≡ true
unfolding take_url is_url_text
take_url-is_url_text [] = refl
take_url-is_url_text (c ∷ t) = ground (arith, take_url-is_url_text t)

strip_prefix-++ : (p k : Text) → strip_prefix p (p ++ k) ≡ some k
unfolding strip_prefix
strip_prefix-++ [] k = refl
strip_prefix-++ (c ∷ p) k = ground (arith, strip_prefix-++ p k)

match_url-some :
    (p t url : Text)
    → match_url p t ≡ some url
    → (key : Text) × (url ≡ p ++ key) × (is_empty key ≡ false) × (is_url_text key ≡ true)
unfolding match_url
match_url-some p t url e = elim (Option-cases (strip_prefix p t)) [
  | inl absent ↦ ground arith
  | inr (rest, there) ↦ (take_url rest, ground arith, ground arith, take_url-is_url_text rest)
]

match_urls-keys :
    (p : Text) (skip : ℕ) (t : Text)
    → (keys : List Text) × (match_urls p skip t ≡ map (λ key. p ++ key) keys)
      × (are_keys keys ≡ true)
unfolding match_urls are_keys
match_urls-keys p skip [] = ([], refl, refl)
match_urls-keys p (suc k) (c ∷ t) = match_urls-keys p k t
match_urls-keys p zero (c ∷ t) = elim (Option-cases (match_url p (c ∷ t))) [
  | inl absent ↦ let (keys, same, valid) = match_urls-keys p 0 t in (keys, ground arith, valid)
  | inr (url, there) ↦
      let (key, whole, used, valid) = match_url-some p (c ∷ t) url there in
      let (keys, same, rest) = match_urls-keys p (length_of url - 1) t in
      (key ∷ keys, ground arith, ground arith)
]

get_public_url-++ :
    (bucket region key : Text)
    → get_public_url bucket region key ≡ get_public_url bucket region [] ++ key
unfolding get_public_url
get_public_url-++ bucket region key = simp (append_assoc)

extract_keys-map :
    (bucket region : Text) (keys : List Text)
    → extract_keys bucket region (map (λ key. get_public_url bucket region [] ++ key) keys)
      ≡ ok keys
unfolding extract_keys extract_key_from_url
extract_keys-map bucket region [] = refl
extract_keys-map bucket region (key ∷ keys) = ground (
  arith,
  strip_prefix-++ (get_public_url bucket region []) key,
  extract_keys-map bucket region keys,
)

map-public :
    (bucket region : Text) (keys : List Text)
    → map (λ key. get_public_url bucket region [] ++ key) keys
      ≡ map (get_public_url bucket region) keys
map-public bucket region [] = refl
map-public bucket region (key ∷ keys) =
    ground (arith, get_public_url-++ bucket region key, map-public bucket region keys)

-- Every URL that the search finds in a text is the public URL of a key that is not empty and holds
-- only characters that a URL may hold, and the extraction of the keys from the URLs that were found
-- never fails and gives these keys, in order.
pub extract_keys-match_urls :
    (bucket region text : Text)
    → (keys : List Text) × (extract_keys bucket region
          (match_urls (get_public_url bucket region []) 0 text)
        ≡ ok keys)
      × (match_urls (get_public_url bucket region []) 0 text
          ≡ map (get_public_url bucket region) keys)
      × (are_keys keys ≡ true)
extract_keys-match_urls bucket region text =
    let p = get_public_url bucket region [] in
    let (keys, found, valid) = match_urls-keys p 0 text in
    (
      keys,
      rw (found) (extract_keys-map bucket region keys),
      found ∙ map-public bucket region keys,
      valid,
    )
