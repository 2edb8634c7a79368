-- ===== src/Lib.antt =====
-- A verification library for go-llama.cpp: Go bindings of llama.cpp, and a tool-calling loop that
-- runs on them.
--
-- The parts. Package llama (llama.go) wraps one model of the C++ library: options are collected,
-- copied to the C heap and passed to one C function per method; a registry, keyed by the address
-- of the model, holds the callbacks that the C++ side calls for each token. pool.go keeps several
-- models by name. Package toolchat (toolchat/) drives a model through rounds: a system prompt and a
-- grammar ask for a JSON envelope, the answer is parsed, the tools it asks for are called, and
-- their results go back as messages, until a final answer.
--
-- Files and what they model:
--   Base, Strings, Json   what the source uses of Go: maps, int, results, sort, strings, strconv,
--                         encoding/json. A Go string is the list of its code points.
--   Options/Types, Model, Predict   options.go, one function per option. A float32 is its bits.
--   Llama/Params, Load    llama.go: what newCPredictParams and New pass to C.
--   Llama/System          llama.go: setCallback, tokenCallback, bindingError, and the C heap as the
--                         addresses of the blocks that are live. Llama/System/Heap: a set of them.
--   Llama/Native          the functions of binding.h, a parameter of all that follows.
--   Llama/Predict         llama.go: Predict, SpeculativeSampling, Eval, cleanPredictionResult;
--                         Predict/Laws, Effects, Clean, Balance: their properties.
--   Llama/Model, Embeddings, Tokens, Info   llama.go: New, Free, the state files, the embeddings, the
--                         chat template, the tokens, ModelInfo and BuiltinChatTemplates;
--                         Model/Ledger: which models are open; Balance: the C heap.
--   Llama/Pool            pool.go: the sections under the lock (reserve and register are those of
--                         Load) and the methods. Pool/Laws: one caller. Pool/Refinement: a pool as a
--                         function from names. Pool/Threads: the sections as steps of several
--                         callers, with New between two of them and the freeing of models after.
--   Toolchat/Types, Names, Tools   toolchat/toolchat.go: the data, validateToolName, normalizeTools.
--   Toolchat/Envelope     extractJSONObject, parseEnvelope, normalizeToolCalls, normalizeArguments,
--                         and ParseEnvelope of toolchat/protocol.go.
--   Toolchat/Prompt       systemPrompt, promptMessages, formatToolResults, marshalToolOutput.
--   Toolchat/Grammar      toolchat/schema_grammar.go, and EnvelopeGrammar of toolchat/toolchat.go;
--                         Grammar/Rules: the rule table that the converter builds;
--                         Grammar/Fuel: how deep a schema is and which references it answers.
--   Toolchat/Runner       prepare (Config), executeToolCalls (Execute), Generate (Loop);
--                         Execute/Events: a world that records what it is asked.
--   Program               examples/main.go: main and readMultiLineInput. Program/Laws: the prompts.
--   Llama/Examples, Toolchat/Examples, Program/Examples   the definitions and theorems at small
--                         inputs.
--
-- State and errors. The methods of llama.go are functions on the state `System`, in a monad `Go`; the
-- deferred calls stand at the end, in the reverse order. Generate acts on a `World` of any state: the
-- model, the tools and the context. A Go pair of a value and an error is a `Result`, or both where
-- the source returns both.
--
-- Fuel. The loop of Generate runs on the number of turns, as in the source. A JSON text is read
-- on fuel of more than twice its length: two readers at most start before a character is taken
-- (Json/Parse/Fuel). The converter of schemas runs on fuel for the depth of the schema and once more
-- for each reference that it answers, as a reference is followed once (Toolchat/Grammar/Fuel);
-- without it the result would be an error of its own.
-- The example program runs on more fuel than its input has lines, one of which each prompt takes.
-- A fresh rule name is looked for among one more candidates than there are names in use.
--
-- Not modelled. The C++ side and llama.cpp: a parameter. The limit of encoding/json on nesting, and
-- texts that are not valid UTF-8. The locks: each method of one model is a step, though the source
-- takes the lock after it has set the callback. What the example program prints and how its arguments
-- are read. The longest slice of C ints that `make` allows, `strconv.FormatFloat`, the printing of a
-- JSON number and `unicode.IsPrint` are arguments.
pub mod Base
pub mod Strings
pub mod Json
pub mod Options
pub mod Llama
pub mod Toolchat
pub mod Program
