-- ===== src/Filter.antt =====
-- crates/sdk/src/filter.rs: the log filter that hides what is logged while a history is replayed.
-- `Spans` is the extension `ReplayField` of each span, by the span's id. tracing itself is not modelled:
-- an event comes with the id of its outermost span, if it is in one.
use durabletask_rs.Prelude.{
  ℕ, ◌≡◌, refl, ◌∙◌, String, Bool, true, false, not, Option, none, some, List, [], ◌∷◌, ◌==◌,
  if◌then◌else◌, string_eq, nat_eq, Bool-cases, inl, inr,
}
use durabletask_rs.Prelude.HashMap.{HashMap, lookup, insert, lookup-insert, lookup-insert_self}
use durabletask_rs.Prelude.Outcome.{Outcome, returns, panics, unwrap_none}

-- The value of a field: a `bool`, or of a type that the visitor does not look at.
pub data FieldValue : Type 0 where
  bool : Bool → FieldValue
  other : FieldValue

abbrev pub Fields : Type 0
Fields = List (String × FieldValue)

abbrev pub Spans : Type 0
Spans = HashMap ℕ Bool

-- `record_bool` and `record_debug` of the visitor, with the visitor's value.
abbrev pub record_field : Bool → String × FieldValue → Bool
record_field replaying (name, bool b) = if name == "replaying" then b else replaying
record_field replaying (name, other) = replaying

-- `attrs.record(&mut visitor)`
unfoldable pub visit : Bool → Fields → Bool
visit replaying [] = replaying
visit replaying (field ∷ fields) = visit (record_field replaying field) fields

-- A new span has no extensions yet.
unfoldable pub on_new_span : Fields → ℕ → Spans → Spans
unfolding visit insert
on_new_span attrs id spans = insert id (visit false attrs) spans

unfoldable pub on_record : ℕ → Fields → Spans → Spans
unfolding visit insert
on_record id fields spans = insert id (visit false fields) spans

abbrev pub enabled_by : Option Bool → Outcome Bool
enabled_by none = panics unwrap_none
enabled_by (some replaying) = returns (not replaying)

abbrev pub enabled_in : Spans → Option ℕ → Outcome Bool
enabled_in spans none = returns true
enabled_in spans (some root) = enabled_by (lookup root spans)

-- `event_enabled`, at the outermost span of the event's scope.
unfoldable pub event_enabled : Option ℕ → Spans → Outcome Bool
unfolding lookup
event_enabled root spans = enabled_in spans root

-- Values recorded on spans, one span at a time.
unfoldable pub record_all : List (ℕ × Fields) → Spans → Spans
unfolding on_record
record_all [] spans = spans
record_all ((id, fields) ∷ rest) spans = record_all rest (on_record id fields spans)

-- What was last recorded on a span, if these fields stood on it at first.
abbrev pub last_fields : ℕ → Fields → List (ℕ × Fields) → Fields
last_fields root fields [] = fields
last_fields root fields ((id, recorded) ∷ rest) =
    last_fields root (if id == root then recorded else fields) rest

-- What the fields say last of `replaying`, if anything.
abbrev later : Bool → String → Option Bool → Option Bool
later b name (some r) = some r
later b name none = if name == "replaying" then some b else none

abbrev pub last_replaying : Fields → Option Bool
last_replaying [] = none
last_replaying ((name, other) ∷ rest) = last_replaying rest
last_replaying ((name, bool b) ∷ rest) = later b name (last_replaying rest)

abbrev or_else : Option Bool → Bool → Bool
or_else none b = b
or_else (some r) b = r

-- Fields are of a replay if they say so last.
abbrev pub says_replaying : Fields → Bool
says_replaying fields = or_else (last_replaying fields) false

visit-last_replaying :
    (b : Bool) (fields : Fields) → visit b fields ≡ or_else (last_replaying fields) b
unfolding visit
visit-last_replaying b [] = refl
visit-last_replaying b ((name, other) ∷ rest) = visit-last_replaying b rest
visit-last_replaying b ((name, bool c) ∷ rest) =
    visit-last_replaying (if name == "replaying" then c else b) rest
    ∙ go (last_replaying rest) (name == "replaying")
  where
    go :
        (last : Option Bool) (named : Bool)
        → or_else last (if named then c else b)
          ≡ or_else (elim last [ some r ↦ some r | none ↦ if named then some c else none ]) b
    go (some r) named = refl
    go none true = refl
    go none false = refl

-- With the extension of the root known, records decide what becomes of its events.
enabled_after :
    (root : ℕ) (steps : List (ℕ × Fields)) (fields : Fields) (spans : Spans)
    → lookup root spans ≡ some (visit false fields)
    → event_enabled (some root) (record_all steps spans)
      ≡ returns (not (visit false (last_fields root fields steps)))
unfolding event_enabled record_all on_record
enabled_after root [] fields spans h = rw h refl
enabled_after root ((id, recorded) ∷ steps) fields spans h = elim (Bool-cases (id == root)) [
  | inl same ↦ rw same (
      enabled_after root steps recorded (on_record id recorded spans)
        (rw (lookup-insert id root (visit false recorded) spans, same) refl))
  | inr differs ↦ rw differs (
      enabled_after root steps fields (on_record id recorded spans)
        (rw (lookup-insert id root (visit false recorded) spans, differs) h))
]

-- An event in a span is logged exactly where the fields that were last recorded on the event's outermost
-- span, or else those it was made with, do not set `replaying`; whatever is recorded on other spans.
pub event_enabled-record_all :
    (root : ℕ) (attrs : Fields) (steps : List (ℕ × Fields)) (spans : Spans)
    → event_enabled (some root) (record_all steps (on_new_span attrs root spans))
      ≡ returns (not (says_replaying (last_fields root attrs steps)))
unfolding on_new_span
event_enabled-record_all root attrs steps spans =
    rw⁻¹ (visit-last_replaying false (last_fields root attrs steps)) (
      enabled_after root steps attrs (on_new_span attrs root spans)
        (lookup-insert_self root (visit false attrs) spans))
