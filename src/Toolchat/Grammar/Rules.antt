-- ===== src/Toolchat/Grammar/Rules.antt =====
-- toolchat/schema_grammar.go: the rule table of a converter, and what one more rule does to it.
pub mod Nodes
pub mod Typed
pub mod Refs
pub mod Schema
use go_llama_cpp.Base.{
  ℕ, suc, ◌+◌, ◌*◌, ◌≤◌, ◌<◌, ◌≡◌, refl, sym, ap, ◌∙◌, Bool, true, false, ◌||◌, ◌&&◌, not, Option,
  none, some, List, [], ◌∷◌, ◌++◌, Text, text_beq, text_beq_iff, text_eq, lookup, insert,
  lookup-insert, if◌then◌else◌, Result, mul-le-mul_right, ok, err, ◌>>=◌, arith, Bool-cases, inl,
  inr,
}
use go_llama_cpp.Toolchat.Grammar.Fuel.{depth, targets, unfollowed}
use go_llama_cpp.Toolchat.Grammar.Fuel.Bounds.{IsKept, unfollowed-le}
use go_llama_cpp.Toolchat.Grammar.Compile.Types.{GrammarError, out_of_fuel}
use go_llama_cpp.Toolchat.Grammar.Lexical.{member, grammar_builtin_names}
use go_llama_cpp.Toolchat.Grammar.Converter.{
  SchemaConverter, new_schema_converter, has_rule, is_taken, reserve, set_rule, define,
}
use go_llama_cpp.Toolchat.Grammar.Converter.Fresh.{member-append, reserve-free}

abbrev pub distinct : List Text → Bool
distinct [] = true
distinct (n ∷ ns) = not (member n ns) && distinct ns

-- The table: the names in order are those of the rules, each once, none is built in, and each
-- reference that was followed leads to one of them.
pub record IsTable (c : SchemaConverter) : Type 0 where
  pub known : (n : Text) → member n c.order ≡ has_rule (lookup n c.rules)
  pub once : distinct c.order ≡ true
  pub own : (n : Text) → member n c.order ≡ true → member n grammar_builtin_names ≡ false
  pub refs : (ref n : Text) → lookup ref c.refs ≡ some n → member n c.order ≡ true

-- A table from which no name is lost.
pub record Extends (c c' : SchemaConverter) : Type 0 where
  pub table : IsTable c'
  pub grows : (n : Text) → member n c.order ≡ true → member n c'.order ≡ true
  pub same : c'.doc ≡ c.doc
  pub kept : IsKept c.refs c'.refs

-- A name that a rule of the grammar may mention.
abbrev pub is_rule : SchemaConverter → Text → Bool
is_rule c n = member n c.order || member n grammar_builtin_names

pub Extends-refl : (c : SchemaConverter) → IsTable c → Extends c c
Extends-refl c h = record { table = h; grows = λ n e. e; same = refl; kept = λ ref e. e }

pub Extends-trans : (c d e : SchemaConverter) → Extends c d → Extends d e → Extends c e
Extends-trans c d e h k = record {
  table = k.table;
  grows = λ n m. k.grows n (h.grows n m);
  same = k.same ∙ h.same;
  kept = λ ref m. k.kept ref (h.kept ref m);
}

distinct-append :
    (n : Text) (ns : List Text)
    → distinct ns ≡ true
    → member n ns ≡ false
    → distinct (ns ++ n ∷ []) ≡ true
distinct-append n [] h k = refl
distinct-append n (m ∷ ns) h k =
    ground
      (arith, distinct-append n ns, member-append m ns (n ∷ []), text_beq_iff m n, text_beq_iff n m)

or_left : (a b : Bool) → (a || b) ≡ false → a ≡ false
or_left false b h = refl
or_left true b h = h

or_right : (a b : Bool) → (a || b) ≡ false → b ≡ false
or_right false b h = h
or_right true b h = cc

pub or_true : (a b : Bool) → a ≡ true → (a || b) ≡ true
or_true a b h = rw h refl

pub true_or : (a b : Bool) → b ≡ true → (a || b) ≡ true
true_or true b h = refl
true_or false b h = h

pub new-IsTable : (prefix : Text) → IsTable (new_schema_converter prefix)
unfolding new_schema_converter lookup
new-IsTable prefix = record {
  known = λ n. refl;
  once = refl;
  own = λ n h. cc;
  refs = λ ref n h. cc;
}

module _ (c : SchemaConverter) (h : IsTable c) where
  -- The table with one more name, whose rule is empty.
  abbrev added : Text → SchemaConverter
  added name = record c { rules = insert name [] c.rules; order = c.order ++ name ∷ [] }

  member-added :
      (name n : Text) → member n (added name).order ≡ (member n c.order || text_beq n name)
  member-added name n = ground (arith, member-append n c.order (name ∷ []))

  added_self : (name : Text) → member name (added name).order ≡ true
  added_self name = ground (arith, member-added name name, text_beq_iff name name)

  added_known :
      (name n : Text) → member n (added name).order ≡ has_rule (lookup n (added name).rules)
  added_known name n = ground (
    arith,
    member-added name n,
    h.known n,
    lookup-insert name n [] c.rules,
    text_beq_iff name n,
    text_beq_iff n name,
  )

  added_own :
      (name n : Text)
      → member name grammar_builtin_names ≡ false
      → member n (added name).order ≡ true
      → member n grammar_builtin_names ≡ false
  added_own name n free k = elim (Bool-cases (text_beq n name)) [
    | inl e ↦ rw ((text_beq_iff n name).0 e) free
    | inr e ↦ h.own n (ground (arith, member-added name n))
  ]

  added-Extends :
      (name : Text)
      → member name c.order ≡ false
      → member name grammar_builtin_names ≡ false
      → Extends c (added name)
  added-Extends name new free = record {
    table = record {
      known = added_known name;
      once = distinct-append name c.order h.once new;
      own = λ n. added_own name n free;
      refs = λ ref n k. ground (arith, member-added name n, h.refs ref n k);
    };
    grows = λ n k. ground (arith, member-added name n);
    same = refl;
    kept = λ ref e. e;
  }

  -- A name that is not taken is no name of the table, and not built in.
  free_name_lem :
      (name : Text)
      → is_taken c name ≡ false
      → (member name c.order ≡ false) × (member name grammar_builtin_names ≡ false)
  unfolding is_taken
  free_name_lem name e = (h.known name ∙ or_left _ _ e, or_right _ _ e)

  pub reserve-Extends :
      (base : Text)
      → Extends c (reserve c base).1 × (member (reserve c base).0 (reserve c base).1.order ≡ true)
  unfolding reserve
  reserve-Extends base =
      let name = (reserve c base).0 in
      let (new, free) = free_name_lem name (reserve-free c base) in
      (added-Extends name new free, added_self name)

  pub set_rule-Extends :
      (name body : Text) → member name c.order ≡ true → Extends c (set_rule c name body)
  unfolding set_rule
  set_rule-Extends name body k = record {
    table = record {
      known = λ n. ground (
        arith,
        h.known n,
        lookup-insert name n body c.rules,
        text_beq_iff name n,
        text_beq_iff n name,
      );
      once = h.once;
      own = h.own;
      refs = h.refs;
    };
    grows = λ n e. e;
    same = refl;
    kept = λ ref e. e;
  }

-- A table, and fuel for a node of a depth and for each reference that is not followed yet.
pub record Fits (fuel d : ℕ) (c : SchemaConverter) : Type 0 where
  pub table : IsTable c
  pub enough : d + unfollowed c.refs (targets c.doc) * suc (depth c.doc) < fuel

pub Fits-le : (fuel d e : ℕ) (c : SchemaConverter) → Fits fuel d c → e ≤ d → Fits fuel e c
Fits-le fuel d e c h le = record { table = h.table; enough = omega (arith, h.enough, le) }

pub Extends-Fits :
    (fuel d : ℕ) (c c' : SchemaConverter) → Fits fuel d c → Extends c c' → Fits fuel d c'
Extends-Fits fuel d c c' h k = record {
  table = k.table;
  enough = rw k.same (
      let fewer = unfollowed-le c.refs c'.refs (targets c.doc) k.kept in
      omega (arith, h.enough, mul-le-mul_right (suc (depth c.doc)) fewer));
}

-- What a part of the converter gives from a table: a name that may be mentioned, and more table.
abbrev pub Gives : SchemaConverter → Text × SchemaConverter → Type 0
Gives c (name, c') = Extends c c' × (is_rule c' name ≡ true)

pub define-Gives :
    (c : SchemaConverter) (base body : Text) → IsTable c → Gives c (define c base body)
unfolding define set_rule
define-Gives c base body h =
    let r = reserve c base in
    let (more, mem) = reserve-Extends c h base in
    let named = set_rule-Extends r.1 more.table r.0 body mem in
    (Extends-trans c r.1 (set_rule r.1 r.0 body) more named, or_true (member r.0 r.1.order) _ mem)

pub Extends-Gives :
    (c d : SchemaConverter) (r : Text × SchemaConverter) → Extends c d → Gives d r → Gives c r
Extends-Gives c d r h k = (Extends-trans c d r.1 h k.0, k.1)

-- A name that is built in, or one of the table.
pub is_rule-Gives :
    (c : SchemaConverter) (name : Text) → IsTable c → is_rule c name ≡ true → Gives c (name, c)
is_rule-Gives c name h e = (Extends-refl c h, e)

pub built_in :
    (c : SchemaConverter) (name : Text)
    → IsTable c
    → member name grammar_builtin_names ≡ true
    → Gives c (name, c)
built_in c name h e = is_rule-Gives c name h (true_or (member name c.order) _ e)

abbrev pub has_run_out : GrammarError → Bool
has_run_out out_of_fuel = true
has_run_out e = false

-- A property of what is returned, or an error of the code, not of the fuel.
abbrev pub IsOk {κ} : {A : Type κ} → (A → Type 0) → Result GrammarError A → Type 0
IsOk P (ok a) = P a
IsOk P (err e) = has_run_out e ≡ false

pub >>=-IsOk {κ ι} :
    {A : Type κ} {B : Type ι} (P : A → Type 0) (Q : B → Type 0) (r : Result GrammarError A)
    (k : A → Result GrammarError B)
    → IsOk P r
    → ((a : A) → P a → IsOk Q (k a))
    → IsOk Q (r >>= k)
>>=-IsOk P Q (ok a) k h f = f a h
>>=-IsOk P Q (err e) k h f = h

pub test-IsOk {κ} :
    {A : Type κ} (P : A → Type 0) (b : Bool) (r s : Result GrammarError A)
    → (b ≡ true → IsOk P r)
    → (b ≡ false → IsOk P s)
    → IsOk P (if b then r else s)
test-IsOk P true r s h k = h refl
test-IsOk P false r s h k = k refl

pub if-IsOk {κ} :
    {A : Type κ} (P : A → Type 0) (b : Bool) (r s : Result GrammarError A)
    → IsOk P r
    → IsOk P s
    → IsOk P (if b then r else s)
if-IsOk P b r s h k = test-IsOk P b r s (λ e. h) (λ e. k)

pub option-IsOk {κ ι} :
    {A : Type κ} {B : Type ι} (P : A → Type 0) (o : Option B) (f : B → Result GrammarError A)
    (r : Result GrammarError A)
    → ((b : B) → o ≡ some b → IsOk P (f b))
    → (o ≡ none → IsOk P r)
    → IsOk P (elim o [ some b ↦ f b | none ↦ r ])
option-IsOk P none f r h k = k refl
option-IsOk P (some b) f r h k = h b refl

pub weaken-IsOk {κ} :
    {A : Type κ} (P Q : A → Type 0) (r : Result GrammarError A)
    → ((a : A) → P a → Q a)
    → IsOk P r
    → IsOk Q r
weaken-IsOk P Q (ok a) f h = f a h
weaken-IsOk P Q (err e) f h = h
