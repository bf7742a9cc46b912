-- ===== src/Go/Packages.antt =====
-- The third-party packages that the services call, as parameters.
use microservices_course.Common.{ℕ, ◌≡◌, String, Option, some, none}
use microservices_course.Go.Results.{Action}

-- A UUID is the number that its sixteen bytes spell; the code compares UUIDs and copies them.
abbrev pub Uuid : Type 0
Uuid = ℕ

-- uuid.Nil
abbrev pub nil_uuid : Uuid
nil_uuid = 0

-- A time.Time is copied only.
abbrev pub Time : Type 0
Time = ℕ

-- github.com/google/uuid: `Parse` reads back what `String` writes, and refuses the empty text.
pub record UuidPackage : Type 0 where
  pub parse : String → Option Uuid
  pub to_string : Uuid → String
  pub parse-to_string : (u : Uuid) → parse (to_string u) ≡ some u
  pub parse-empty : parse "" ≡ none

-- The gRPC status codes that the code names; `other` is any of the remaining ones.
pub data Code : Type 0 where
  invalid_argument not_found internal other : Code

-- A gRPC status: its code and its description. The text of the error that a caller gets is made of
-- both, by the gRPC package.
pub record Status : Type 0 where
  pub code : Code
  pub text : String

-- What a gRPC call returns: the response or a status.
pub data Reply (A : Type 0) : Type 0 where
  response : A → Reply A
  failed : Status → Reply A

-- `Do` of the transaction manager, at each type that the closure assigns.
abbrev pub TxManager : Type 0 → Type 0 → Type 1
TxManager St S = (A : Type 0) → Action St S A → Action St S A
