-- ===== src/Yjs/Markdown/Trim.antt =====
-- src/global/yjs/markdown-yjs.ts and src/domain/node-content: what `trim` and /\s+$/ leave.
use aideep_websocket.Common.{
  Text, ◌≡◌, refl, ◌∙◌, Bool, true, false, not, ◌&&◌, [], ◌∷◌, ◌++◌, arith, is_empty, Bool-cases,
  inl, inr,
}
use aideep_websocket.Attachments.Urls.{is_space}
use aideep_websocket.Yjs.Markdown.{trim_end, trim_start, trim, next_markdown}
use aideep_websocket.NodeContent.Service.{is_blank}

unfoldable pub all_space : Text → Bool
all_space [] = true
all_space (c ∷ t) = is_space c && all_space t

trim_end-is_empty : (t : Text) → is_empty (trim_end t) ≡ all_space t
unfolding trim_end all_space
trim_end-is_empty [] = refl
trim_end-is_empty (c ∷ t) = ground (arith, trim_end-is_empty t)

trim_start-all_space : (t : Text) → all_space (trim_start t) ≡ all_space t
unfolding trim_start all_space
trim_start-all_space [] = refl
trim_start-all_space (c ∷ t) = ground (arith, trim_start-all_space t)

-- A markdown is turned away as empty exactly if each of its units is white space.
pub is_blank-all_space : (t : Text) → is_blank t ≡ all_space t
unfolding is_blank trim
is_blank-all_space t = trim_end-is_empty (trim_start t) ∙ trim_start-all_space t

-- Whether the last unit of a text is no white space.
unfoldable pub ends_solid : Text → Bool
ends_solid [] = true
ends_solid (c ∷ []) = not (is_space c)
ends_solid (c ∷ d ∷ t) = ends_solid (d ∷ t)

trim_end-ends_solid : (t : Text) → ends_solid (trim_end t) ≡ true
unfolding trim_end ends_solid
trim_end-ends_solid [] = refl
trim_end-ends_solid (c ∷ t) = ground (arith, trim_end-ends_solid t)

trim_end-++ : (t : Text) → (spaces : Text) × (t ≡ trim_end t ++ spaces) × (all_space spaces ≡ true)
unfolding trim_end all_space
trim_end-++ [] = ([], refl, refl)
trim_end-++ (c ∷ t) =
    let (spaces, whole, blank) = trim_end-++ t in
    elim (Bool-cases (is_space c && is_empty (trim_end t))) [
      | inl gone ↦ (c ∷ spaces, ground arith, ground arith)
      | inr kept ↦ (spaces, ground arith, blank)
    ]

-- Where the old markdown is not empty, it is a text that ends in no white space followed by white
-- space alone, and the markdown after an append is that text, two line feeds and the new markdown.
pub next_markdown-parts :
    (previous markdown : Text)
    → is_empty previous ≡ false
    → (kept : Text) × (spaces : Text) × (previous ≡ kept ++ spaces)
      × (next_markdown previous markdown ≡ kept ++ 10 ∷ 10 ∷ markdown)
      × (all_space spaces ≡ true)
      × (ends_solid kept ≡ true)
unfolding next_markdown
next_markdown-parts previous markdown used =
    let (spaces, whole, blank) = trim_end-++ previous in
    (trim_end previous, spaces, whole, ground arith, blank, trim_end-ends_solid previous)
