-- ===== src/Toolchat/Examples/RoundTrip.antt =====
-- Envelopes that are written and read back.
use go_llama_cpp.Base.{◌≡◌, [], ok, arith, Text}
use go_llama_cpp.Strings.{codes}
use go_llama_cpp.Json.{str}
use go_llama_cpp.Json.Print.{marshal_string}
use go_llama_cpp.Json.Escapes.{IsUnicode}
use go_llama_cpp.Json.Parse.RoundTrip.{Member}
use go_llama_cpp.Toolchat.Envelope.Parse.{parse_public_envelope, final_type}
use go_llama_cpp.Toolchat.Envelope.Parse.RoundTrip.{final_text, parse_public_envelope-final}

abbrev greeting : Text
greeting = codes "{\"hi\" <you>\n"

greeting-IsUnicode : IsUnicode greeting
greeting-IsUnicode = ground arith

parse_public_envelope-final_example :
    parse_public_envelope (final_text greeting)
    ≡ ok (record { type = final_type; content = greeting; tool_calls = [] })
parse_public_envelope-final_example = parse_public_envelope-final greeting greeting-IsUnicode

-- {"city":"Bern"}
abbrev city : Member
city = record {
  key = codes "city";
  raw = marshal_string (codes "Bern");
  document = str (codes "Bern");
}
