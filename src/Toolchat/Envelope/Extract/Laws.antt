-- ===== src/Toolchat/Envelope/Extract/Laws.antt =====
-- toolchat/toolchat.go: properties of extractJSONObject.
use mathlib.Core.List.{concat-ne-nil}
use go_llama_cpp.Base.{
  ℕ, suc, ◌+◌, ◌≡◌, ◌≢◌, refl, ap, ap₂, sym, ◌∙◌, true, false, some, ok, List, [], ◌∷◌, ◌++◌,
  append_assoc, arith, Text, length, length-append, subst,
}
use go_llama_cpp.Strings.{
  codes, trim_space, trim_left, trim_right, has_prefix, split, join, index, last_index, slice,
}
use go_llama_cpp.Strings.Trim.{IsSolid, trim_space-append, All-trim_left, All-trim_right}
use go_llama_cpp.Strings.Search.{
  Lacks, index-append, last_index-append, slice_middle, split-append, split_first, join-split,
}
use go_llama_cpp.Toolchat.Envelope.Extract.{
  fence, drop_closing, inner_lines, strip_markdown_fence, between, extract_json_object,
}

-- An object as it stands in a text: what begins with `{` and ends with `}`.
abbrev pub braced : Text → Text
braced mid = b'{' ∷ (mid ++ b'}' ∷ [])

length-braced : (mid : Text) → length (braced mid) ≡ length mid + 2
length-braced mid = omega (arith, length-append mid (b'}' ∷ []))

slice-braced :
    (pre mid post : Text)
    → slice
        (pre ++ (b'{' ∷ (mid ++ b'}' ∷ post)))
        (length pre)
        (suc (length pre + suc (length mid)))
      ≡ braced mid
slice-braced pre mid post =
    ap₂ (λ (s : Text) (n : ℕ). slice s (length pre) n)
      (ap (λ (t : Text). pre ++ b'{' ∷ t) (sym (append_assoc mid (b'}' ∷ []) post)))
      (omega (arith, length-braced mid))
    ∙ slice_middle pre (braced mid) post

last_brace :
    (pre mid post : Text)
    → Lacks b'}' post
    → last_index (pre ++ (b'{' ∷ (mid ++ b'}' ∷ post))) b'}' ≡ some (length pre + suc (length mid))
last_brace pre mid post k =
    ap (λ (s : Text). last_index s b'}') (sym (append_assoc pre (b'{' ∷ mid) (b'}' ∷ post)))
    ∙ last_index-append b'}' (pre ++ b'{' ∷ mid) post k
    ∙ ap some (length-append pre (b'{' ∷ mid))

between_ordered :
    (body out : Text) (i m : ℕ)
    → slice body i (suc (i + suc m)) ≡ out
    → between body (some i) (some (i + suc m)) ≡ ok out
between_ordered body out i m h = ground arith

between_braces :
    (pre mid post : Text)
    → Lacks b'{' pre
    → Lacks b'}' post
    → let body = pre ++ (b'{' ∷ (mid ++ b'}' ∷ post)) in
      between body (index body b'{') (last_index body b'}') ≡ ok (braced mid)
between_braces pre mid post h k =
    let body : Text = pre ++ (b'{' ∷ (mid ++ b'}' ∷ post)) in
    ap₂ (between body) (index-append b'{' pre (mid ++ b'}' ∷ post) h) (last_brace pre mid post k)
    ∙ between_ordered body (braced mid) (length pre) (length mid) (slice-braced pre mid post)

pub brace-IsSolid : IsSolid b'{' × IsSolid b'}'
unfolding go_llama_cpp.Strings.is_space
brace-IsSolid = (refl, refl)

strip_plain : (b : Text) → has_prefix b fence ≡ false → strip_markdown_fence b ≡ b
unfolding strip_markdown_fence
strip_plain b h = rw h

-- Prose around an object, with no `{` before it, no `}` behind it and no fence at the start, is
-- cut away, whatever the object holds.
pub extract_json_object-prose :
    (pre mid post : Text)
    → Lacks b'{' pre
    → Lacks b'}' post
    → has_prefix (trim_space (pre ++ (b'{' ∷ (mid ++ b'}' ∷ post)))) fence ≡ false
    → extract_json_object (pre ++ (b'{' ∷ (mid ++ b'}' ∷ post))) ≡ ok (braced mid)
unfolding extract_json_object
extract_json_object-prose pre mid post h k plain =
    let trimmed = trim_space-append pre mid post b'{' b'}' brace-IsSolid.0 brace-IsSolid.1 in
    ap (λ (b : Text). between b (index b b'{') (last_index b b'}')) (strip_plain _ plain ∙ trimmed)
    ∙ between_braces (trim_left pre) mid (trim_right post) (All-trim_left _ pre h)
        (All-trim_right _ post k)

drop_closing-append :
    (ls : List Text) (l : Text)
    → has_prefix (trim_space l) fence ≡ true
    → drop_closing (ls ++ l ∷ []) ≡ ls
unfolding drop_closing
drop_closing-append [] l h = rw h
drop_closing-append (k ∷ []) l h = rw h
drop_closing-append (k ∷ k' ∷ ls) l h = rw (drop_closing-append (k' ∷ ls) l h)

-- A fenced block: three backticks and a language, lines, three backticks.
abbrev pub fenced : Text → Text → Text
fenced info inner = fence ++ (info ++ 10 ∷ (inner ++ 10 ∷ fence))

backtick-IsSolid : IsSolid b'`'
unfolding go_llama_cpp.Strings.is_space
backtick-IsSolid = refl

has_prefix-fence : (s : Text) → has_prefix (fence ++ s) fence ≡ true
unfolding has_prefix
has_prefix-fence s = refl

trim_space-fenced : (info inner : Text) → trim_space (fenced info inner) ≡ fenced info inner
trim_space-fenced info inner =
    let mid : Text = b'`' ∷ b'`' ∷ (info ++ 10 ∷ (inner ++ 10 ∷ b'`' ∷ b'`' ∷ [])) in
    let whole : mid ++ b'`' ∷ [] ≡ b'`' ∷ b'`' ∷ (info ++ 10 ∷ (inner ++ 10 ∷ fence)) =
      simp append_assoc in
    let framed = trim_space-append [] mid [] b'`' b'`' backtick-IsSolid backtick-IsSolid in
    subst (λ (t : Text). trim_space (b'`' ∷ t) ≡ b'`' ∷ t) whole (framed ∙ trimmed_nil mid)
  where
    trimmed_nil :
        (mid : Text)
        → trim_left [] ++ (b'`' ∷ (mid ++ b'`' ∷ trim_right [])) ≡ b'`' ∷ (mid ++ b'`' ∷ [])
    trimmed_nil mid = unfold trim_left trim_right in refl

trim_space-braced : (mid : Text) → trim_space (braced mid) ≡ braced mid
unfolding trim_left trim_right
trim_space-braced mid = trim_space-append [] mid [] b'{' b'}' brace-IsSolid.0 brace-IsSolid.1

inner_lines_of_ne-nil :
    (body first : Text) (ls : List Text)
    → ls ≢ []
    → inner_lines body (first ∷ ls) ≡ trim_space (join (drop_closing ls) (10 ∷ []))
inner_lines_of_ne-nil body first [] h = absurd (h refl)
inner_lines_of_ne-nil body first (l ∷ ls) h = refl

strip_markdown_fence-fenced :
    (info inner : Text)
    → Lacks 10 info
    → strip_markdown_fence (fenced info inner) ≡ trim_space inner
unfolding strip_markdown_fence
strip_markdown_fence-fenced info inner h =
    rw (has_prefix-fence (info ++ 10 ∷ (inner ++ 10 ∷ fence))) (
      ap (inner_lines (fenced info inner)) lines
      ∙ inner_lines_of_ne-nil _ (fence ++ info) (split inner 10 ++ fence ∷ [])
          (concat-ne-nil fence (split inner 10))
      ∙ ap (λ (ls : List Text). trim_space (join ls (10 ∷ [])))
          (drop_closing-append (split inner 10) fence closes)
      ∙ ap trim_space (join-split inner 10))
  where
    closes : has_prefix (trim_space fence) fence ≡ true
    closes = unfold trim_space has_prefix in refl

    lacks : Lacks 10 (fence ++ info)
    lacks = (omega arith, (omega arith, (omega arith, h)))

    lines : split (fenced info inner) 10 ≡ (fence ++ info) ∷ (split inner 10 ++ fence ∷ [])
    lines =
        split_first (fence ++ info) (inner ++ 10 ∷ fence) 10 lacks
        ∙ ap (λ (ls : List Text). (fence ++ info) ∷ ls) (split-append inner fence 10 (omega arith))

-- An object inside a fence, whose first line says any language, is found as it stands, the lines
-- of the object included.
pub extract_json_object-fenced :
    (info mid : Text)
    → Lacks 10 info
    → extract_json_object (fenced info (braced mid)) ≡ ok (braced mid)
unfolding extract_json_object
extract_json_object-fenced info mid h =
    ap (λ (b : Text). between b (index b b'{') (last_index b b'}'))
      (ap strip_markdown_fence (trim_space-fenced info (braced mid))
        ∙ strip_markdown_fence-fenced info (braced mid) h
        ∙ trim_space-braced mid)
    ∙ between_braces [] mid [] tt tt
