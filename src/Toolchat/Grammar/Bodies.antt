-- ===== src/Toolchat/Grammar/Bodies.antt =====
-- toolchat/schema_grammar.go: the bodies of the rules for arrays and objects.
use go_llama_cpp.Base.{Bool, Option, none, some, List, [], ◌∷◌, ◌++◌, if◌then◌else◌, Text}
use go_llama_cpp.Strings.{codes, join}
use go_llama_cpp.Json.{Json, str}

abbrev pub bar : Text
bar = codes " | "

unfoldable pub array_body : Bool → Text → Text
array_body nonempty item =
    let inner = item ++ (codes " (\",\" ws " ++ (item ++ codes ")*")) in
    if nonempty
    then codes "\"[\" ws " ++ (inner ++ codes " \"]\" ws")
    else codes "\"[\" ws (" ++ (inner ++ codes ")? \"]\" ws")

-- The strings of a "required" list.
required_names : List Json → List Text
required_names [] = []
required_names (str s ∷ vs) = s ∷ required_names vs
required_names (v ∷ vs) = required_names vs

unfoldable pub required_of : Option (List Json) → List Text
unfolding required_names
required_of none = []
required_of (some vs) = required_names vs

optional_tail : List Text → Text
optional_tail [] = []
optional_tail (kv ∷ kvs) = codes " (\",\" ws " ++ (kv ++ (codes ")?" ++ optional_tail kvs))

-- Each optional pair as the first one present, with the later ones behind it.
first_optional : List Text → List Text
unfolding optional_tail
first_optional [] = []
first_optional (kv ∷ kvs) = (kv ++ optional_tail kvs) ∷ first_optional kvs

members_body : List Text → List Text → Text
unfolding first_optional join optional_tail
members_body [] optional = b'(' ∷ (join (first_optional optional) bar ++ codes ")?")
members_body (r ∷ rs) optional = join (r ∷ rs) (codes " \",\" ws ") ++ optional_tail optional

unfoldable pub object_body : List Text → List Text → Text
unfolding members_body
object_body required optional =
    codes "\"{\" ws " ++ (members_body required optional ++ codes " \"}\" ws")
