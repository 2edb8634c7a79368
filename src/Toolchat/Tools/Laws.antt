-- ===== src/Toolchat/Tools/Laws.antt =====
-- toolchat/toolchat.go: properties of normalizeTools.
pub mod Callable
use mathlib.Core.List.{Perm}
use go_llama_cpp.Base.{
  ◌≡◌, ◌≢◌, refl, ap, subst, ◌∙◌, ◌↔◌, ◌⊎◌, inl, inr, Bool, true, false, ◌&&◌, not, Option, none,
  some, List, [], ◌∷◌, map, arith, if◌then◌else◌, Text, Result, ok, err, ◌>>=◌, check, >>=-eq-ok,
  is_empty, All, lookup, insert, lookup-insert, text_eq, text_beq, text_beq_iff, sort_by, IsSorted,
  sort_by-IsSorted, sort_by-perm, sort_by-All, sym, Bool-cases,
}
use go_llama_cpp.Json.Parse.{valid}
use go_llama_cpp.Toolchat.Types.{
  ToolChoice, is_never, is_required, never, required, Error, needs_tool, Tool,
}
use go_llama_cpp.Toolchat.Names.{validate_tool_name, IsToolName, validate_tool_name_iff}
use go_llama_cpp.Toolchat.Tools.{
  with_schema, is_taken, lacks_call, when, check_tool, collect, by_name, normalize_tools,
}

with_schema-name : (t : Tool) → (with_schema t).name ≡ t.name
unfolding with_schema
with_schema-name t = ground arith

-- What is asked of one tool: a proper name, a schema that is missing or JSON, and a function
-- where tools may be called.
pub record IsUsable (choice : ToolChoice) (require_call : Bool) (t : Tool) : Type 0 where
  pub named : IsToolName t.name
  pub schema_valid : (t.schema ≡ []) ⊎ (valid t.schema ≡ true)
  pub callable : require_call ≡ true → is_never choice ≡ false → lacks_call t ≡ false

abbrev pub HasDistinctNames : List Tool → Type 0
HasDistinctNames [] = Unit
HasDistinctNames (t ∷ ts) = All (λ u. u.name ≢ t.name) ts × HasDistinctNames ts

module _ (choice : ToolChoice) (rc : Bool) where
  check_tool_iff :
      (seen : List (Text × Tool)) (t : Tool)
      → (check_tool choice rc seen t ≡ ok (with_schema t))
        ↔ (IsUsable choice rc t × (lookup t.name seen ≡ none))
  unfolding check_tool
  check_tool_iff seen t = ground (arith, validate_tool_name_iff t.name)

  check_tool-eq-ok :
      (seen : List (Text × Tool)) (t u : Tool)
      → check_tool choice rc seen t ≡ ok u
      → u ≡ with_schema t
  unfolding check_tool
  check_tool-eq-ok seen t u h = ground arith

-- The map after the loop.
register : List (Text × Tool) → List Tool → List (Text × Tool)
register seen [] = seen
register seen (t ∷ ts) = register (insert t.name (with_schema t) seen) ts

abbrev IsFresh : List (Text × Tool) → List Tool → Type 0
IsFresh seen = All (λ t. lookup t.name seen ≡ none)

IsFresh-insert :
    (seen : List (Text × Tool)) (n : Text) (u : Tool) (ts : List Tool)
    → IsFresh seen ts
    → All (λ t. t.name ≢ n) ts
    → IsFresh (insert n u seen) ts
IsFresh-insert seen n u [] h k = tt
IsFresh-insert seen n u (t ∷ ts) h k = (
  ground (arith, lookup-insert n t.name u seen, text_beq_iff n t.name),
  IsFresh-insert seen n u ts h.1 k.1,
)

IsFresh-insert_inv :
    (seen : List (Text × Tool)) (n : Text) (u : Tool) (ts : List Tool)
    → IsFresh (insert n u seen) ts
    → IsFresh seen ts × All (λ t. t.name ≢ n) ts
IsFresh-insert_inv seen n u [] h = (tt, tt)
IsFresh-insert_inv seen n u (t ∷ ts) h =
    let (fresh, others) = IsFresh-insert_inv seen n u ts h.1 in
    (
      (ground (arith, lookup-insert n t.name u seen, text_beq_iff n t.name), fresh),
      (ground (arith, lookup-insert n t.name u seen, text_beq_iff n t.name), others),
    )

lookup-register_other :
    (seen : List (Text × Tool)) (n : Text) (ts : List Tool)
    → All (λ t. t.name ≢ n) ts
    → lookup n (register seen ts) ≡ lookup n seen
unfolding register
lookup-register_other seen n [] h = refl
lookup-register_other seen n (t ∷ ts) h =
    lookup-register_other (insert t.name (with_schema t) seen) n ts h.1
    ∙ ground (arith, lookup-insert t.name n (with_schema t) seen, text_beq_iff t.name n)

lookup-register :
    (seen : List (Text × Tool)) (ts : List Tool)
    → HasDistinctNames ts
    → All (λ t. lookup t.name (register seen ts) ≡ some (with_schema t)) ts
unfolding register
lookup-register seen [] h = tt
lookup-register seen (t ∷ ts) (others, h) = (
  lookup-register_other (insert t.name (with_schema t) seen) t.name ts others
      ∙ ground
          (arith, lookup-insert t.name t.name (with_schema t) seen, text_beq_iff t.name t.name),
  lookup-register (insert t.name (with_schema t) seen) ts h,
)

IsFresh-nil : (ts : List Tool) → IsFresh [] ts
unfolding lookup
IsFresh-nil [] = tt
IsFresh-nil (t ∷ ts) = (refl, IsFresh-nil ts)

All-map-with_schema :
    (m : List (Text × Tool)) (ts : List Tool)
    → All (λ t. lookup t.name m ≡ some (with_schema t)) ts
    → All (λ t. lookup t.name m ≡ some t) (map with_schema ts)
All-map-with_schema m [] h = tt
All-map-with_schema m (t ∷ ts) h =
    (ap (λ n. lookup n m) (with_schema-name t) ∙ h.0, All-map-with_schema m ts h.1)

required_ne_nil :
    (ts : List Tool) (choice : ToolChoice)
    → is_required choice && is_empty ts ≡ false
    → choice ≡ required
    → ts ≢ []
required_ne_nil ts choice h e k = ground arith

required_guard :
    (ts : List Tool) (choice : ToolChoice)
    → (choice ≡ required → ts ≢ [])
    → is_required choice && is_empty ts ≡ false
required_guard [] required h = absurd (h refl refl)
required_guard [] _ h = refl
required_guard (t ∷ ts) c h = ground arith

module _ (choice : ToolChoice) (rc : Bool) where
  collect_complete :
      (seen : List (Text × Tool)) (ts : List Tool)
      → All (IsUsable choice rc) ts
      → HasDistinctNames ts
      → IsFresh seen ts
      → collect choice rc seen ts ≡ ok (map with_schema ts, register seen ts)
  unfolding collect register
  collect_complete seen [] u d f = refl
  collect_complete seen (t ∷ ts) u d f = rw (
    (check_tool_iff choice rc seen t).1 (u.0, f.0),
    collect_complete (insert t.name (with_schema t) seen) ts u.1 d.1
        (IsFresh-insert seen t.name (with_schema t) ts f.1 d.0),
  )

  collect_sound :
      (seen : List (Text × Tool)) (ts : List Tool) {r : List Tool × List (Text × Tool)}
      → collect choice rc seen ts ≡ ok r
      → All (IsUsable choice rc) ts × HasDistinctNames ts × IsFresh seen ts
  unfolding collect
  collect_sound seen [] h = (tt, tt, tt)
  collect_sound seen (t ∷ ts) h =
      let (t', checked, h') = >>=-eq-ok _ _ h in
      let (rest, collected, _) = >>=-eq-ok _ _ h' in
      let same = check_tool-eq-ok choice rc seen t t' checked in
      let (usable, fresh) = (check_tool_iff choice rc seen t).0 (checked ∙ ap ok same) in
      let (us, ds, fs) = collect_sound (insert t.name (with_schema t) seen) ts (
        subst (λ (u : Tool). collect choice rc (insert t.name u seen) ts ≡ ok rest) same
          collected) in
      let (f, d) = IsFresh-insert_inv seen t.name (with_schema t) ts fs in
      ((usable, us), (d, ds), (fresh, f))

  collected_inv :
      (c : Result Error (List Tool × List (Text × Tool))) {r : List Tool × List (Text × Tool)}
      → (c >>= λ a. ok (sort_by by_name a.0, a.1)) ≡ ok r
      → (a : List Tool × List (Text × Tool)) × (c ≡ ok a) × ((sort_by by_name a.0, a.1) ≡ r)
  collected_inv (ok a) h = (a, refl, cc)
  collected_inv (err e) h = cc

  normalize_tools_inv :
      (ts : List Tool) {r : List Tool × List (Text × Tool)}
      → normalize_tools ts choice rc ≡ ok r
      → (is_required choice && is_empty ts ≡ false)
        × ((c : List Tool × List (Text × Tool)) × (collect choice rc [] ts ≡ ok c)
            × ((sort_by by_name c.0, c.1) ≡ r))
  unfolding normalize_tools
  normalize_tools_inv ts h = elim (Bool-cases (is_required choice && is_empty ts)) [
    | inl bad ↦ cc (rw (bad, normalize_tools) at h)
    | inr good ↦ (good, collected_inv _ (rw (good, normalize_tools) at h))
  ]

  -- `normalizeTools` accepts exactly the lists of usable tools with distinct names, which are not
  -- empty where a tool must be called.
  pub normalize_tools_accepts :
      (ts : List Tool)
      → ((r : List Tool × List (Text × Tool)) × (normalize_tools ts choice rc ≡ ok r))
        ↔ ((choice ≡ required → ts ≢ []) × All (IsUsable choice rc) ts × HasDistinctNames ts)
  unfolding normalize_tools
  normalize_tools_accepts ts = (
    (λ s.
        let (guarded, (c, collected, _)) = normalize_tools_inv ts s.1 in
        let (usable, distinct, _) = collect_sound [] ts collected in
        (required_ne_nil ts choice guarded, usable, distinct)),
    λ (nonempty, usable, distinct). (
      (sort_by by_name (map with_schema ts), register [] ts),
      rw (
        required_guard ts choice nonempty,
        collect_complete [] ts usable distinct (IsFresh-nil ts),
      ),
    ),
  )

abbrev Describes : List Tool → List Tool × List (Text × Tool) → Type 0
Describes ts r =
    IsSorted by_name r.0
    × Perm r.0 (map with_schema ts)
    × All (λ t. lookup t.name r.1 ≡ some t) r.0
    × ((n : Text) → All (λ t. t.name ≢ n) ts → lookup n r.1 ≡ none)

Describes-sort :
    (ts : List Tool)
    → HasDistinctNames ts
    → Describes ts (sort_by by_name (map with_schema ts), register [] ts)
Describes-sort ts d = (
  sort_by-IsSorted by_name _,
  sort_by-perm by_name _,
  sort_by-All by_name _ _ (All-map-with_schema _ ts (lookup-register [] ts d)),
  λ n h. lookup-register_other [] n ts h ∙ unfold lookup in refl,
)

-- What `normalizeTools` returns: the tools in the order of their names, each with its schema or
-- the default one, and a map that has exactly these.
pub normalize_tools_result :
    (choice : ToolChoice) (rc : Bool) (ts : List Tool) {r : List Tool × List (Text × Tool)}
    → normalize_tools ts choice rc ≡ ok r
    → IsSorted by_name r.0
      × Perm r.0 (map with_schema ts)
      × All (λ t. lookup t.name r.1 ≡ some t) r.0
      × ((n : Text) → All (λ t. t.name ≢ n) ts → lookup n r.1 ≡ none)
unfolding normalize_tools
normalize_tools_result choice rc ts {r} h =
    let (_, (c, collected, same)) = normalize_tools_inv choice rc ts h in
    let (usable, distinct, fresh) = collect_sound choice rc [] ts collected in
    let exact = sym (collect_complete choice rc [] ts usable distinct fresh) ∙ collected in
    subst (Describes ts) (cc) (Describes-sort ts distinct)
