-- ===== src/Toolchat/Tools/Laws/Callable.antt =====
-- toolchat/toolchat.go: normalizeTools and the functions of the tools.
use go_llama_cpp.Base.{
  ◌≡◌, ◌≢◌, refl, ap, sym, subst, ◌∙◌, true, false, none, some, List, [], ◌∷◌, arith, Text,
  Bool-cases, inl, inr, ok, All, lookup, insert, lookup-insert, text_eq, text_beq,
}
use go_llama_cpp.Toolchat.Types.{ToolChoice, is_never, Tool}
use go_llama_cpp.Toolchat.Tools.{with_schema, lacks_call, normalize_tools}
use go_llama_cpp.Toolchat.Tools.Laws.{
  IsUsable, register, collect_sound, collect_complete, normalize_tools_inv,
}

abbrev HasCalls : List (Text × Tool) → Type 0
HasCalls m = (n : Text) (t : Tool) → lookup n m ≡ some t → t.call ≢ none

call_of_lacks : (t : Tool) → lacks_call t ≡ false → (with_schema t).call ≢ none
unfolding with_schema
call_of_lacks t h = ground arith

some_inj : {t u : Tool} → some t ≡ some u → t ≡ u
some_inj h = cc

insert-HasCalls :
    (n : Text) (t : Tool) (m : List (Text × Tool))
    → t.call ≢ none
    → HasCalls m
    → HasCalls (insert n t m)
insert-HasCalls n t m has h k u e = elim (Bool-cases (text_beq n k)) [
  | inl same ↦
      subst (λ (v : Tool). v.call ≢ none) (some_inj (sym (rw same at (lookup-insert n k t m)) ∙ e))
        has
  | inr other ↦ h k u (sym (rw other at (lookup-insert n k t m)) ∙ e)
]

register-HasCalls :
    (seen : List (Text × Tool)) (ts : List Tool)
    → HasCalls seen
    → All (λ t. lacks_call t ≡ false) ts
    → HasCalls (register seen ts)
unfolding register
register-HasCalls seen [] h k = h
register-HasCalls seen (t ∷ ts) h k =
    register-HasCalls (insert t.name (with_schema t) seen) ts
      (insert-HasCalls t.name (with_schema t) seen (call_of_lacks t k.0) h) k.1

calls_of_usable :
    (choice : ToolChoice) (ts : List Tool)
    → is_never choice ≡ false
    → All (IsUsable choice true) ts
    → All (λ t. lacks_call t ≡ false) ts
calls_of_usable choice [] h k = tt
calls_of_usable choice (t ∷ ts) h k = (k.0.callable refl h, calls_of_usable choice ts h k.1)

-- Where calls are required and the choice is not none, every tool in the map that
-- `normalizeTools` returns has a function.
pub normalize_tools-HasCalls :
    (choice : ToolChoice) (ts : List Tool) {r : List Tool × List (Text × Tool)}
    → normalize_tools ts choice true ≡ ok r
    → is_never choice ≡ false
    → (n : Text) (t : Tool) → lookup n r.1 ≡ some t
    → t.call ≢ none
normalize_tools-HasCalls choice ts {r} h k =
    let (_, (c, collected, same)) = normalize_tools_inv choice true ts h in
    let (usable, distinct, fresh) = collect_sound choice true [] ts collected in
    let exact = sym (collect_complete choice true [] ts usable distinct fresh) ∙ collected in
    let registered : register [] ts ≡ r.1 =
      cc (exact, ap (λ (p : List Tool × List (Text × Tool)). p.1) same) in
    subst HasCalls registered
      (register-HasCalls [] ts (unfold lookup in λ n t e. cc) (calls_of_usable choice ts k usable))
