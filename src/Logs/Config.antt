-- ===== src/Logs/Config.antt =====
-- src/global/common/logging/logging.config.ts. The environment variables are arguments.
use aideep_websocket.Common.{
  ℕ, Text, codes, Bool, true, false, Option, none, some, List, [], ◌∷◌, is_empty, text_eq, ltb,
  ◌==◌, ◌&&◌, if◌then◌else◌,
}
use aideep_websocket.Yjs.Markdown.{trim}

-- parsePositiveInt, where `read` is Number(text), none for what is not finite
unfoldable pub parse_positive_int : (Text → Option ℕ) → Option Text → ℕ → ℕ
parse_positive_int read none fallback = fallback
parse_positive_int read (some text) fallback =
    if is_empty text
    then fallback
    else elim (read text) [ none ↦ fallback | some n ↦ if ltb 0 n then n else fallback ]

abbrev add_char : ℕ → List Text → List Text
add_char c [] = (c ∷ []) ∷ []
add_char c (part ∷ parts) = (c ∷ part) ∷ parts

-- text.split(',')
unfoldable pub split_commas : Text → List Text
split_commas [] = [] ∷ []
split_commas (c ∷ t) =
    let parts = split_commas t in if c == 44 then [] ∷ parts else add_char c parts

-- .map((s) => s.trim()).filter(Boolean)
unfoldable pub trimmed_parts : List Text → List Text
unfolding trim
trimmed_parts [] = []
trimmed_parts (part ∷ parts) =
    let rest = trimmed_parts parts in if is_empty (trim part) then rest else trim part ∷ rest

unfoldable pub parse_csv : Option Text → List Text → List Text
unfolding split_commas trimmed_parts
parse_csv none fallback = fallback
parse_csv (some text) fallback =
    if is_empty text
    then fallback
    else let parts = trimmed_parts (split_commas text) in if is_empty parts then fallback else parts

-- SLOW_QUERY_MS and LOG_SKIP_URLS
unfoldable pub slow_query_ms : (Text → Option ℕ) → Option Text → ℕ
unfolding parse_positive_int
slow_query_ms read variable = parse_positive_int read variable 500

unfoldable pub log_skip_urls : Option Text → List Text
unfolding parse_csv
log_skip_urls variable = parse_csv variable (codes "/metrics" ∷ [])

-- process.env.NODE_ENV === 'production'
unfoldable pub is_production : Option Text → Bool
is_production none = false
is_production (some text) = text_eq text (codes "production")

-- text.startsWith(prefix)
unfoldable pub starts_with : Text → Text → Bool
starts_with text [] = true
starts_with [] (c ∷ prefix) = false
starts_with (d ∷ text) (c ∷ prefix) = d == c && starts_with text prefix
