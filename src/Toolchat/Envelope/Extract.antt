-- ===== src/Toolchat/Envelope/Extract.antt =====
-- toolchat/toolchat.go: extractJSONObject and stripMarkdownFence.
pub mod Laws
use go_llama_cpp.Base.{
  ℕ, suc, ◌<◌, Bool, true, false, ◌||◌, not, Option, none, some, List, [], ◌∷◌, ltb, if◌then◌else◌,
  Text, Result, ok, err,
}
use go_llama_cpp.Strings.{codes, trim_space, has_prefix, split, join, index, last_index, slice}
use go_llama_cpp.Toolchat.Types.{Error, no_json_object}

abbrev fence : Text
fence = codes "```"

-- Drops the last line if it closes the fence.
drop_closing : List Text → List Text
drop_closing [] = []
drop_closing (l ∷ []) = if has_prefix (trim_space l) fence then [] else l ∷ []
drop_closing (l ∷ m ∷ ls) = l ∷ drop_closing (m ∷ ls)

abbrev inner_lines : Text → List Text → Text
inner_lines body [] = body
inner_lines body (first ∷ []) = body
inner_lines body (first ∷ l ∷ ls) = trim_space (join (drop_closing (l ∷ ls)) (10 ∷ []))

unfoldable pub strip_markdown_fence : Text → Text
unfolding drop_closing
strip_markdown_fence body =
    if not (has_prefix body fence) then body else inner_lines body (split body 10)

-- `body[start : end+1]`, where both ends are found in order.
abbrev between : Text → Option ℕ → Option ℕ → Result Error Text
between body none end = err no_json_object
between body (some start) none = err no_json_object
between body (some start) (some end) =
    if ltb end start then err no_json_object else ok (slice body start (suc end))

unfoldable pub extract_json_object : Text → Result Error Text
extract_json_object raw =
    let body = strip_markdown_fence (trim_space raw) in
    between body (index body b'{') (last_index body b'}')
