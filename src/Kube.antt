-- ===== src/Kube.antt =====
-- The vocabulary of Kubernetes objects that the operator's code is written in: errors and
-- messages, object metadata, references and conditions (k8s.io/apimachinery types as
-- operator/internal/controller and operator/api/v1alpha1 use them).

use native.Mathlib.Decide.{ℕ_discrete}
use tamoss.Base.{ℕ, String, String-discrete, Bool, Option, List, []}

-- A point in time; a `*metav1.Time` is an `Option Time`.
abbrev pub Time : Type 0
Time = ℕ

-- Go errors: the API server's, the object store's with its code, the package variables that
-- `errors.New` makes, a `releases.SelectionError` with its reason, those that `fmt.Errorf` makes
-- from a format and its arguments, and those that wrap another one with `%w`.
pub data Error : Type 0 where
  not_found already_exists conflict : Error
  other response sentinel : String → Error
  selection : String → String → List String → Error
  errorf : String → List String → Error
  wrapf : String → List String → Error → Error

-- A text made by `fmt.Sprintf`, kept as its format and arguments; `with_error` has the text of an
-- error as its last argument.
pub data Message : Type 0 where
  empty : Message
  sprintf : String → List String → Message
  with_error : String → List String → Error → Message

abbrev pub literal : String → Message
literal s = sprintf s []

-- `err.Error()`.
unfoldable pub error_text : Error → Message
error_text (errorf f args) = sprintf f args
error_text (sentinel s) = sprintf s []
error_text (selection reason f args) = sprintf f args
error_text (wrapf f args e) = with_error f args e
error_text e = with_error "%v" [] e

-- `errors.Is` and `errors.As`: the error at the end of the chain of wrapped ones.
unfoldable pub cause : Error → Error
cause (wrapf f args e) = cause e
cause e = e

pub record OwnerReference : Type 0 where
  pub api_version : String
  pub kind : String
  pub name : String
  pub uid : String
  pub controller : Bool

pub record ObjectMeta : Type 0 where
  pub name : String
  pub namespace : String
  pub uid : String
  pub generation : ℕ
  pub labels : List (String × String)
  pub annotations : List (String × String)
  pub finalizers : List String
  pub owner_references : List OwnerReference
  pub deletion_timestamp : Option Time

-- `corev1.ObjectReference`.
pub record ObjectReference : Type 0 where
  pub api_version : String
  pub kind : String
  pub namespace : String
  pub name : String
  pub uid : String

pub data ConditionStatus : Type 0 where
  condition_true condition_false condition_unknown : ConditionStatus

pub record Condition : Type 0 where
  pub type : String
  pub status : ConditionStatus
  pub observed_generation : ℕ
  pub last_transition_time : Time
  pub reason : String
  pub message : Message

-- `ctrl.Result`: `requeue_after` is in seconds, and zero asks for nothing.
pub record ReconcileResult : Type 0 where
  pub requeue_after : ℕ

abbrev pub done : ReconcileResult
done = record { requeue_after = 0 }

abbrev pub requeue : ℕ → ReconcileResult
requeue n = record { requeue_after = n }

pub Message-discrete : Discrete Message
Message-discrete = hlevel (String-discrete)

pub Condition-discrete : Discrete Condition
Condition-discrete = hlevel (String-discrete, ℕ_discrete)
