-- ===== src/Json.antt =====
-- Go's `encoding/json`, as far as the program uses it: documents, reading and writing.
pub mod Parse
pub mod Print
pub mod Escapes
pub mod Keys
mod Tests
use go_llama_cpp.Base.{Bool, Text}

-- A document. A number keeps its literal; a member of an object keeps the raw text of its value,
-- which is what a `json.RawMessage` field receives.
mutual
  pub data Json : Type 0 where
    null : Json
    bool : Bool → Json
    num : Text → Json
    str : Text → Json
    arr : Items → Json
    obj : Fields → Json

  pub data Items : Type 0 where
    nil : Items
    cons : Json → Items → Items

  pub data Fields : Type 0 where
    end : Fields
    field : (key : Text) (raw : Text) → Json → Fields → Fields
