-- ===== src/Core/Snapshot.antt =====
-- internal/core/snapshot.go, problem.go, fact.go, verification.go and action.go: the values that a
-- run presents. A text that is only stored or compared is a `String`; a moment is its distance from
-- Go's zero time, so 0 is the moment that `IsZero` reports.
use evident_output.Prelude.{ℕ, Bool, List, Option, String}
use evident_output.Core.State.{EntityState, Progress, Resolution}

pub record CommandSpec : Type 0 where
  pub executable : String
  pub args : List String
  pub working_dir : String

pub record Action : Type 0 where
  pub label : String
  pub command : Option CommandSpec
  pub url : String
  pub file : String
  pub explanation : String
  pub requires_confirmation : Bool
  pub destructive : Bool

pub record SourceLocation : Type 0 where
  pub path : String
  pub line : ℕ
  pub column : ℕ

pub record Attachment : Type 0 where
  pub label : String
  pub value : String

-- A field's value of type `any`: a text, or something else.
pub data FieldValue : Type 0 where
  text : String → FieldValue
  other : ℕ → FieldValue

pub record Field : Type 0 where
  pub key : String
  pub value : FieldValue
  pub sensitive : Bool

-- `cause` is the text of the wrapped error.
pub record Problem : Type 0 where
  pub code : String
  pub subject : String
  pub summary : String
  pub detail : String
  pub evidence_tail : String
  pub severity : String
  pub count : ℕ
  pub unit : String
  pub location : Option SourceLocation
  pub evidence : List Attachment
  pub actions : List Action
  pub fields : List Field
  pub cause : Option String
  pub sensitive : Bool

pub record Fact : Type 0 where
  pub name : String
  pub value : String

pub data VerificationStatus : Type 0 where
  satisfied unsatisfied error unknown : VerificationStatus

pub record VerificationDetail : Type 0 where
  pub name : String
  pub status : VerificationStatus
  pub facts : List Fact

pub record TaxonomyRecord : Type 0 where
  pub reason : String
  pub name : String
  pub causes : List String

pub record TaskSnapshot : Type 0 where
  pub id : String
  pub key : String
  pub name : String
  pub state : EntityState
  pub phase : String
  pub activity_at : ℕ
  pub live_first_seen_at : ℕ
  pub progress : Progress
  pub summary : String
  pub problems : List Problem
  pub warnings : List Problem
  pub facts : List Fact
  pub verification : List VerificationDetail
  pub actions : List Action
  pub skipped : List TaxonomyRecord
  pub kept : List TaxonomyRecord
  pub collection : String
  pub declaration : ℕ
  pub resolution : Resolution
  pub synthetic : Bool

-- What a collection is beside its members.
pub record Container : Type 0 where
  pub id : String
  pub key : String
  pub name : String
  pub state : EntityState
  pub summary : String
  pub sequential : Bool
  pub declaration : ℕ

mutual
  pub data TasksSnapshot : Type 0 where
    tasks_snapshot : Container → List TaskSnapshot → Collections → TasksSnapshot

  pub data Collections : Type 0 where
    nil : Collections
    cons : TasksSnapshot → Collections → Collections

abbrev pub container_of : TasksSnapshot → Container
container_of (tasks_snapshot c ts cs) = c

pub record EffectRecord : Type 0 where
  pub verb : String
  pub quantity : ℕ
  pub has_qty : Bool
  pub object : String

-- A changes section, or a plan section: the two structs have the same fields.
pub record EffectSection : Type 0 where
  pub id : String
  pub subject : String
  pub records : List EffectRecord
  pub intended_verb : String
  pub owner : String

pub record Snapshot : Type 0 where
  pub subject : String
  pub tasks : List TaskSnapshot
  pub collections : Collections
  pub changes : List EffectSection
  pub plans : List EffectSection
  pub lines : List String
  pub actions : List Action
  pub dry_run : Bool
  pub warnings : List Problem
  pub facts : List Fact
