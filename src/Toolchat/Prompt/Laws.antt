-- ===== src/Toolchat/Prompt/Laws.antt =====
-- toolchat/toolchat.go: the messages of a round.
use go_llama_cpp.Base.{
  ◌≡◌, ◌≢◌, ◌⊎◌, sym, ap, ◌∙◌, inl, inr, refl, List, [], ◌∷◌, ◌++◌, Text, text_beq, text_beq_iff,
  Bool-cases,
}
use go_llama_cpp.Strings.{codes}
use go_llama_cpp.Llama.Types.{ChatMessage}
use go_llama_cpp.Toolchat.Prompt.{system_role, prompt_messages}

-- What the messages of a round are, by the history: one of the two cases, each with its condition.
pub record IsPrompt (prompt : Text) (history out : List ChatMessage) : Type 0 where
  pub content : Text
  pub rest : List ChatMessage
  pub shape : out ≡ record { role = system_role; content = content } ∷ rest
  pub keeps :
      ((m : ChatMessage) × (history ≡ m ∷ rest)
        × (m.role ≡ system_role)
        × (content ≡ prompt ++ (codes "\n\n" ++ m.content)))
      ⊎ ((rest ≡ history)
          × (content ≡ prompt)
          × ((m : ChatMessage) (later : List ChatMessage)
              → history ≡ m ∷ later
              → m.role ≢ system_role))

head_inj :
    {m n : ChatMessage} {xs ys : List ChatMessage}
    → ◌≡◌ {A = List ChatMessage} (m ∷ xs) (n ∷ ys)
    → m ≡ n
head_inj h = cc

-- The messages of a round are a system message and then the history: if the history begins with a
-- system message, that one is left out of it and its content stands after the configured prompt
-- and an empty line; if it does not, the history is whole and the content is the configured
-- prompt.
pub prompt_messages-IsPrompt :
    (prompt : Text) (history : List ChatMessage)
    → IsPrompt prompt history (prompt_messages prompt history)
unfolding prompt_messages
prompt_messages-IsPrompt prompt [] = record {
  content = prompt;
  rest = [];
  shape = refl;
  keeps = inr (refl, refl, λ m later e. cc);
}
prompt_messages-IsPrompt prompt (m ∷ history) = elim (Bool-cases (text_beq m.role system_role)) [
  | inl y ↦ record {
    content = prompt ++ (codes "\n\n" ++ m.content);
    rest = history;
    shape =
        rw (prompt_messages, y)
          (λ i.
            record {
              role = (text_beq_iff m.role system_role).0 y i;
              content = prompt ++ (codes "\n\n" ++ m.content);
            }
            ∷ history);
    keeps = inl (m, refl, (text_beq_iff m.role system_role).0 y, refl);
  }
  | inr n ↦ record {
    content = prompt;
    rest = m ∷ history;
    shape = rw (prompt_messages, n);
    keeps = inr (
      refl,
      refl,
      λ first later e system. cc (
          sym n
          ∙ (text_beq_iff m.role system_role).1
              (ap (λ (x : ChatMessage). x.role) (head_inj e) ∙ system)),
    );
  }
]
