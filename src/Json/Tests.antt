-- ===== src/Json/Tests.antt =====
-- Small documents, read and written.
use go_llama_cpp.Base.{◌≡◌, refl, true, false, some, [], ◌∷◌}
use go_llama_cpp.Strings.{codes}
use go_llama_cpp.Json.{num, str, arr, obj, nil, cons, end, field}
use go_llama_cpp.Json.Parse.{parse, valid}
use go_llama_cpp.Json.Print.{marshal_string, compact, indent}

reads :
    parse (codes " {\"a\": [1, -2.5e3], \"b\" : \"x\\n\\u0041\\ud83d\\ude00\"} ")
    ≡ some (
        obj (
          field
            (codes "a")
            (codes "[1, -2.5e3]")
            (arr (cons (num (codes "1")) (cons (num (codes "-2.5e3")) nil)))
            (field
              (codes "b")
              (codes "\"x\\n\\u0041\\ud83d\\ude00\"")
              (str (b'x' ∷ 10 ∷ b'A' ∷ 0x1f600 ∷ []))
              end)))
unfolding parse
reads = refl

refuses :
    (valid (codes "{\"a\":1,}") ≡ false)
    × (valid (codes "[1 2]") ≡ false)
    × (valid (codes "01") ≡ false)
    × (valid (codes "nul") ≡ false)
    × (valid [] ≡ false)
    × (valid (codes "[true,false,null,{}]") ≡ true)
unfolding valid parse
refuses = (refl, refl, refl, refl, refl, refl)

writes :
    (marshal_string (codes "a\"<\n") ≡ codes "\"a\\\"\\u003c\\n\"")
    × (compact (codes "{ \"a b\" : [ 1 ] }") ≡ codes "{\"a b\":[1]}")
    × (indent (codes "[{\"a\":{},\"b\":[1]}]")
        ≡ codes "[\n  {\n    \"a\": {},\n    \"b\": [\n      1\n    ]\n  }\n]")
unfolding marshal_string compact indent
writes = (refl, refl, refl)
