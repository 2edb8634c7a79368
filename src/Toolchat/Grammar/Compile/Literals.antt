-- ===== src/Toolchat/Grammar/Compile/Literals.antt =====
-- toolchat/schema_grammar.go: compileLiterals and compileAlternatives.
use go_llama_cpp.Base.{
  ℕ, suc, List, [], ◌∷◌, ◌++◌, if◌then◌else◌, Text, is_empty, text_eq, Result, ok, err, ◌>>=◌,
}
use go_llama_cpp.Strings.{codes, itoa, join}
use go_llama_cpp.Json.{Json}
use go_llama_cpp.Toolchat.Grammar.Lexical.{Runtime, quote}
use go_llama_cpp.Toolchat.Grammar.Document.{marshal}
use go_llama_cpp.Toolchat.Grammar.Bodies.{bar}
use go_llama_cpp.Toolchat.Grammar.Converter.{SchemaConverter, define}
use go_llama_cpp.Toolchat.Grammar.Compile.Types.{
  GrammarError, empty_enum, empty_alternatives, Compiled, Compile,
}

module _ (go : Runtime) where
  unfoldable pub literal_parts : List Json → List Text
  unfolding quote marshal
  literal_parts [] = []
  literal_parts (v ∷ vs) = (quote go (marshal go v) ++ codes " ws") ∷ literal_parts vs

  unfoldable pub compile_literals : SchemaConverter → List Json → Text → Compiled
  unfolding literal_parts define join
  compile_literals c vs base =
      if is_empty vs then err empty_enum else ok (define c base (join (literal_parts vs) bar))

module _ (rec : Compile) where
  -- The loop over alternatives, with the index.
  unfoldable pub alternatives :
      SchemaConverter → ℕ → List Json → Text → Result GrammarError (List Text × SchemaConverter)
  unfolding itoa
  alternatives c i [] base = ok ([], c)
  alternatives c i (v ∷ vs) base = do
    r ← rec c v (base ++ (codes "-alt-" ++ itoa i))
    rest ← alternatives r.1 (suc i) vs base
    ok (r.0 ∷ rest.0, rest.1)

  unfoldable pub compile_alternatives : SchemaConverter → List Json → Text → Compiled
  unfolding alternatives define join
  compile_alternatives c alts base =
      if is_empty alts
      then err empty_alternatives
      else (do r ← alternatives c 0 alts base; ok (define r.1 base (join r.0 bar)))
