-- ===== src/Internal/Defaults.antt =====
-- The names that internal.rs makes up: a task's name from its function's path, and a worker's name.
use Prim.Native.Char.{Char, code}
use Prim.Native.String.{◌++◌}
use text.Mathlib.TextLemmas.{cons-append, nil-append}
use durabletask_rs.Prelude.{
  ℕ, ◌≡◌, refl, ap, ◌∙◌, String, Bool, true, false, ◌&&◌, Option, none, some, List, [], ◌∷◌,
  if◌then◌else◌, nat_beq, Bool-cases, inl, inr, arith,
}
use mathlib.Core.List.{◌++◌ as append}
use durabletask_rs.Prelude.Decimal.{to_string}
use durabletask_rs.Prelude.Outcome.{Outcome, returns, unwrap}
use durabletask_rs.Prelude.Text.{lacks, push_first}

-- `text.split("::")`, from the left.
unfoldable pub split_path : String → List String
split_path String.[] = String.[] ∷ []
split_path (String.◌∷◌ c String.[]) = String.◌∷◌ c String.[] ∷ []
split_path (String.◌∷◌ c (String.◌∷◌ d text)) =
    let rest = split_path text in
    let whole = split_path (String.◌∷◌ d text) in
    if nat_beq (code c) b':' && nat_beq (code d) b':' then String.[] ∷ rest else push_first c whole

abbrev pub last : List String → Option String
last [] = none
last (part ∷ []) = some part
last (part ∷ parts) = last parts

-- `type_name::<F>()` is the parameter `function_path`.
unfoldable pub get_task_function_name : String → Outcome String
unfolding split_path
get_task_function_name function_path = unwrap (last (split_path function_path))

-- The host's name where it is Unicode, the process id and a UUID's text.
unfoldable pub get_default_worker_name : Option String → ℕ → String → String
unfolding to_string
get_default_worker_name hostname pid uuid =
    (elim hostname [ none ↦ "unknown" | some name ↦ name ])
    ++ ("," ++ (to_string pid ++ ("," ++ uuid)))

-- Modules with `::` behind each, and a name.
abbrev pub path_of : List String → String → String
path_of [] name = name
path_of (part ∷ parts) name = part ++ ("::" ++ path_of parts name)

split_path_other :
    (c : Char) (text : String)
    → nat_beq (code c) b':' ≡ false
    → split_path (String.◌∷◌ c text) ≡ push_first c (split_path text)
unfolding split_path
split_path_other c String.[] h = refl
split_path_other c (String.◌∷◌ d text) h = rw h refl

split_path_colons : (rest : String) → split_path ("::" ++ rest) ≡ "" ∷ split_path rest
unfolding split_path
split_path_colons rest =
    rw (cons-append ":" ":" rest, cons-append ":" "" rest, nil-append rest) refl

-- A part of a path without colons ends at the next `::`.
split_path_part :
    (part rest : String)
    → lacks b':' part ≡ true
    → split_path (part ++ ("::" ++ rest)) ≡ part ∷ split_path rest
unfolding lacks
split_path_part String.[] rest h = rw (nil-append ("::" ++ rest)) (split_path_colons rest)
split_path_part (String.◌∷◌ c part) rest h = elim (Bool-cases (nat_beq (code c) b':')) [
  | inl e ↦ absurd (let bad : ◌≡◌ {A = Bool} false true = rw e at h in cc)
  | inr e ↦
      rw (cons-append c part ("::" ++ rest), split_path_other c (part ++ ("::" ++ rest)) e)
        (ap (push_first c) (split_path_part part rest (rw e at h)))
]

split_path-lacks : (name : String) → lacks b':' name ≡ true → split_path name ≡ name ∷ []
unfolding split_path lacks
split_path-lacks String.[] h = refl
split_path-lacks (String.◌∷◌ c name) h = elim (Bool-cases (nat_beq (code c) b':')) [
  | inl e ↦ absurd (let bad : ◌≡◌ {A = Bool} false true = rw e at h in cc)
  | inr e ↦ rw (split_path_other c name e, split_path-lacks name (rw e at h)) refl
]

abbrev pub all_lack : List String → Bool
all_lack [] = true
all_lack (part ∷ parts) = lacks b':' part && all_lack parts

split_path-path_of :
    (parts : List String) (name : String)
    → all_lack parts ≡ true
    → lacks b':' name ≡ true
    → split_path (path_of parts name) ≡ append parts (name ∷ [])
split_path-path_of [] name h k = split_path-lacks name k
split_path-path_of (part ∷ parts) name h k =
    split_path_part part (path_of parts name) (ground arith)
    ∙ ap (part ∷◌) (split_path-path_of parts name (ground arith) k)

last-append : (parts : List String) (name : String) → last (append parts (name ∷ [])) ≡ some name
last-append [] name = refl
last-append (a ∷ []) name = refl
last-append (a ∷ b ∷ parts) name = last-append (b ∷ parts) name

-- The name of a function is the last part of its path, where no part has a colon.
pub get_task_function_name-path_of :
    (parts : List String) (name : String)
    → all_lack parts ≡ true
    → lacks b':' name ≡ true
    → get_task_function_name (path_of parts name) ≡ returns name
unfolding get_task_function_name
get_task_function_name-path_of parts name h k =
    rw (split_path-path_of parts name h k, last-append parts name) refl
