-- ===== src/Program/Laws.antt =====
-- examples/main.go: the prompts that an input holds, and how a session ends.
use go_llama_cpp.Base.{
  ℕ, zero, suc, ◌<◌, ◌≡◌, refl, sym, ap, ◌∙◌, ◌⊎◌, inl, inr, true, List, [], ◌∷◌, ◌++◌,
  if◌then◌else◌, Text, is_empty, length, arith, append_assoc, append-nil, subst, false, Bool,
  Result, ok, err,
}
use go_llama_cpp.Strings.{trim_space, join}
use go_llama_cpp.Options.Types.{Float32}
use go_llama_cpp.Llama.Native.{Native}
use go_llama_cpp.Llama.System.{System, Go, ◌>>=◌, return}
use go_llama_cpp.Llama.Predict.{LLama, predict}
use go_llama_cpp.Llama.Embeddings.{embeddings}
use go_llama_cpp.Llama.Model.{new}
use go_llama_cpp.Program.{
  Flags, Input, line, failure, Read, sent, exited, read_lines, read_multi_line_input, Outcome, exit,
  panicked, predict_options, model_options, answer, after_predict, after_load, session, run,
}

-- The prompts of an input: the lines between blank ones. What no blank line ends is no prompt.
abbrev pub before : Text → List Text → List Text
before text [] = []
before text (prompt ∷ prompts) = (text ++ prompt) ∷ prompts

unfoldable pub prompts : List Input → List Text
unfolding trim_space
prompts [] = []
prompts (failure e ∷ input) = []
prompts (line text ∷ input) =
    let rest = prompts input in if is_empty (trim_space text) then [] ∷ rest else before text rest

-- 1 if a read fails before the input ends.
abbrev pub exit_code : List Input → ℕ
exit_code [] = 0
exit_code (failure e ∷ input) = 1
exit_code (line text ∷ input) = exit_code input

-- What a read gives, as the prompts tell it, where `head` was read before.
abbrev IsRead : Text → List Input → Read → Type 0
IsRead head input (exited code) = (prompts input ≡ []) × (code ≡ exit_code input)
IsRead head input (sent text rest) =
    (prompt : Text) × (text ≡ head ++ prompt)
    × (prompts input ≡ prompt ∷ prompts rest)
    × (exit_code rest ≡ exit_code input)
    × (length rest < length input)

join-snoc : (lines : List Text) (text : Text) → join (lines ++ text ∷ []) [] ≡ join lines [] ++ text
unfolding join
join-snoc [] text = refl
join-snoc (l ∷ []) text = refl
join-snoc (l ∷ m ∷ lines) text =
    ap (λ s. l ++ s) (join-snoc (m ∷ lines) text) ∙ sym (append_assoc l (join (m ∷ lines) []) text)

if-IsRead :
    (head : Text) (input : List Input) (b : Bool) (r more : Read)
    → (b ≡ true → IsRead head input r)
    → (b ≡ false → IsRead head input more)
    → IsRead head input (if b then r else more)
if-IsRead head input true r more h k = h refl
if-IsRead head input false r more h k = k refl

-- A line that is not blank goes to the front of the prompt that is read.
line-IsRead :
    (head text : Text) (input : List Input) (r : Read)
    → is_empty (trim_space text) ≡ false
    → IsRead (head ++ text) input r
    → IsRead head (line text ∷ input) r
unfolding prompts
line-IsRead head text input (exited code) solid (none_left, same) =
    (rw (solid, none_left) refl, same)
line-IsRead head text input (sent whole rest) solid (prompt, e, more, same, shorter) = (
  text ++ prompt,
  e ∙ append_assoc head text prompt,
  rw (solid, more) refl,
  same,
  omega (arith, shorter),
)

read_lines-IsRead :
    (lines : List Text) (input : List Input) → IsRead (join lines []) input (read_lines lines input)
unfolding read_lines prompts
read_lines-IsRead lines [] = (refl, refl)
read_lines-IsRead lines (failure e ∷ input) = (refl, refl)
read_lines-IsRead lines (line text ∷ input) =
    if-IsRead (join lines []) (line text ∷ input) (is_empty (trim_space text))
      (sent (join lines []) input) (read_lines (lines ++ text ∷ []) input)
      (λ blank. ([], sym (append-nil (join lines [])), rw blank refl, refl, omega arith))
      λ solid.
        line-IsRead (join lines []) text input (read_lines (lines ++ text ∷ []) input) solid (
          subst (λ h. IsRead h input (read_lines (lines ++ text ∷ []) input)) (join-snoc lines text)
            (read_lines-IsRead (lines ++ text ∷ []) input))

module _ {N : Type 0} (format_float : Float32 → Text) (c : Native N) (flags : Flags) where
  -- All prompts in order, until a prediction fails; then the exit.
  abbrev pub answer_all : LLama → List Text → ℕ → Go N Outcome
  answer_all l [] code s = (exit code, s)
  answer_all l (prompt ∷ rest) code s =
      let r = predict format_float c l prompt (predict_options flags) s in
      elim r.0 [
        | err e ↦ (panicked e, r.1)
        | ok text ↦ answer_all l rest code (embeddings format_float c l prompt [] r.1).1
      ]

  -- One prompt: a failed prediction ends the session, else it goes on after the embeddings.
  after_predict-cases :
      (l : LLama) (prompt : Text) (next : Go N Outcome) (r : Result Text Text) (s : System N)
      → after_predict format_float c flags l prompt next r s ≡ elim r [
        | err e ↦ (panicked e, s)
        | ok text ↦ next (embeddings format_float c l prompt [] s).1
      ]
  unfolding after_predict
  after_predict-cases l prompt next (err e) s = refl
  after_predict-cases l prompt next (ok text) s = refl

  answer-answers :
      (l : LLama) (prompt : Text) (rest : List Text) (code : ℕ)
      → answer format_float c flags l prompt (answer_all l rest code)
        ≡ answer_all l (prompt ∷ rest) code
  unfolding answer
  answer-answers l prompt rest code i s =
      let r = predict format_float c l prompt (predict_options flags) s in
      after_predict-cases l prompt (answer_all l rest code) r.0 r.1 i

  read-answers :
      (fuel : ℕ) (l : LLama) (input : List Input) (r : Read)
      → IsRead [] input r
      → ((rest : List Input)
          → length rest < length input
          → session format_float c flags fuel l rest ≡ answer_all l (prompts rest) (exit_code rest))
      → ◌≡◌ {A = Go N Outcome}
          (elim r [
            | exited code ↦ return (exit code)
            | sent text rest ↦
                answer format_float c flags l text (session format_float c flags fuel l rest)
          ])
          (answer_all l (prompts input) (exit_code input))
  read-answers fuel l input (exited code) (e, same) ih = rw (e, same) refl
  read-answers fuel l input (sent text rest) (prompt, e, more, same, shorter) ih =
      rw (e, more, sym same, ih rest shorter)
        (answer-answers l prompt (prompts rest) (exit_code rest))

  -- On fuel that exceeds the number of reads
  session-answers :
      (fuel : ℕ) (l : LLama) (input : List Input)
      → length input < fuel
      → session format_float c flags fuel l input ≡ answer_all l (prompts input) (exit_code input)
  unfolding session read_multi_line_input
  session-answers zero l input h = absurd (omega (arith, h))
  session-answers (suc fuel) l input h =
      read-answers fuel l input (read_lines [] input) (read_lines-IsRead [] input)
        λ rest shorter. session-answers fuel l rest (omega (arith, h, shorter))

  -- How a session may end.
  abbrev pub IsEnded : ℕ → Outcome → Type 0
  IsEnded code end = (end ≡ exit code) ⊎ ((e : Text) × (end ≡ panicked e))

  after_predict-IsEnded :
      (l : LLama) (prompt : Text) (code : ℕ) (next : Go N Outcome)
      → ((t : System N) → IsEnded code (next t).0)
      → (r : Result Text Text) (s : System N)
      → IsEnded code (after_predict format_float c flags l prompt next r s).0
  unfolding after_predict
  after_predict-IsEnded l prompt code next h (err e) s = inr (e, refl)
  after_predict-IsEnded l prompt code next h (ok text) s =
      h (embeddings format_float c l prompt [] s).1

  answer_all-IsEnded :
      (l : LLama) (texts : List Text) (code : ℕ) (s : System N)
      → IsEnded code (answer_all l texts code s).0
  unfolding answer
  answer_all-IsEnded l [] code s = inl refl
  answer_all-IsEnded l (prompt ∷ rest) code s =
      let r = predict format_float c l prompt (predict_options flags) s in
      subst (λ m. IsEnded code (m s).0) (answer-answers l prompt rest code)
        (after_predict-IsEnded l prompt code (answer_all l rest code)
          (answer_all-IsEnded l rest code) r.0 r.1)

  -- After `New`, as the prompts tell it.
  abbrev pub answers : List Input → Result Text LLama → Go N Outcome
  answers input (err e) = return (exit 1)
  answers input (ok l) = answer_all l (prompts input) (exit_code input)

  after_load-answers :
      (input : List Input) (r : Result Text LLama)
      → after_load format_float c flags input r ≡ answers input r
  unfolding after_load
  after_load-answers input (err e) = refl
  after_load-answers input (ok l) = session-answers (suc (length input)) l input (omega arith)

  -- The example program opens the model or exits with 1. Its prompts are the runs of lines that
  -- each end with a line of white space only, not just an empty one as the comment on
  -- `readMultiLineInput` has it; lines after the last such line are in no prompt. It predicts
  -- from each in order with the options of the flags: where that fails it panics with this error
  -- and does nothing more, else it asks for the embeddings and goes on. After them it exits with
  -- 1 if a read failed and 0 if the input ended.
  pub run-answers :
      (input : List Input) (s : System N)
      → run format_float c flags input s
        ≡ (new c flags.model (model_options flags) >>= answers input) s
  unfolding run
  run-answers input s =
      let r = new c flags.model (model_options flags) s in
      ap (λ m. m r.1) (after_load-answers input r.0)

  -- The end of the program, after a result of `New`.
  abbrev pub IsEnd : List Input → Result Text LLama → Outcome → Type 0
  IsEnd input (err e) end = end ≡ exit 1
  IsEnd input (ok l) end = IsEnded (exit_code input) end

  after_load-IsEnd :
      (input : List Input) (r : Result Text LLama) (s : System N)
      → IsEnd input r (after_load format_float c flags input r s).0
  unfolding after_load
  after_load-IsEnd input (err e) s = refl
  after_load-IsEnd input (ok l) s =
      subst (λ m. IsEnded (exit_code input) (m s).0)
        (sym (session-answers (suc (length input)) l input (omega arith)))
        (answer_all-IsEnded l (prompts input) (exit_code input) s)

  -- Whatever its input, the example program ends: with 1 if the model cannot be opened, else with
  -- 1 or 0 as a read fails or the input ends, or in a panic.
  pub run-IsEnd :
      (input : List Input) (s : System N)
      → IsEnd input
          (new c flags.model (model_options flags) s).0
          (run format_float c flags input s).0
  unfolding run
  run-IsEnd input s =
      let r = new c flags.model (model_options flags) s in after_load-IsEnd input r.0 r.1
