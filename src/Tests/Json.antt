-- ===== src/Tests/Json.antt =====
-- A package jx whose JSON values are a data type.
use microservices_course.Common.{
  ℕ, ◌≡◌, refl, ap, String, Bool, true, false, Option, some, none, List, [], ◌∷◌, if◌then◌else◌,
}
use microservices_course.Go.{Uuid, Time}
use microservices_course.Openapi.Json.{Jx, Decoded, decoded, undecoded, jx as jx_error}

mutual
  pub data Value : Type 0 where
    null : Value
    text : String → Value
    number : ℕ → Value
    identity : Uuid → Value
    moment : Time → Value
    object : Members → Value

  pub data Members : Type 0 where
    nothing : Members
    member : String → Value → Members → Members

abbrev pub members_of : List (String × Value) → Members
members_of [] = nothing
members_of ((k, v) ∷ fs) = member k v (members_of fs)

abbrev pub list_of : Members → List (String × Value)
list_of nothing = []
list_of (member k v fs) = (k, v) ∷ list_of fs

pub list_of-members_of : (fs : List (String × Value)) → list_of (members_of fs) ≡ fs
list_of-members_of [] = refl
list_of-members_of ((k, v) ∷ fs) = ap (λ xs. (k, v) ∷ xs) (list_of-members_of fs)

abbrev pub is_null : Value → Bool
is_null null = true
is_null (text t) = false
is_null (number n) = false
is_null (identity u) = false
is_null (moment t) = false
is_null (object fs) = false

abbrev pub read_null : Value → Decoded (Unit {0})
read_null v = if is_null v then decoded tt else undecoded (jx_error "null expected")

abbrev pub read_text : Value → Decoded String
read_text (text t) = decoded t
read_text null = undecoded (jx_error "string expected")
read_text (number n) = undecoded (jx_error "string expected")
read_text (identity u) = undecoded (jx_error "string expected")
read_text (moment t) = undecoded (jx_error "string expected")
read_text (object fs) = undecoded (jx_error "string expected")

abbrev pub read_number : Value → Decoded ℕ
read_number (number n) = decoded n
read_number null = undecoded (jx_error "number expected")
read_number (text t) = undecoded (jx_error "number expected")
read_number (identity u) = undecoded (jx_error "number expected")
read_number (moment t) = undecoded (jx_error "number expected")
read_number (object fs) = undecoded (jx_error "number expected")

abbrev pub read_identity : Value → Decoded Uuid
read_identity (identity u) = decoded u
read_identity null = undecoded (jx_error "uuid expected")
read_identity (text t) = undecoded (jx_error "uuid expected")
read_identity (number n) = undecoded (jx_error "uuid expected")
read_identity (moment t) = undecoded (jx_error "uuid expected")
read_identity (object fs) = undecoded (jx_error "uuid expected")

abbrev pub read_moment : Value → Decoded Time
read_moment (moment t) = decoded t
read_moment null = undecoded (jx_error "time expected")
read_moment (text t) = undecoded (jx_error "time expected")
read_moment (number n) = undecoded (jx_error "time expected")
read_moment (identity u) = undecoded (jx_error "time expected")
read_moment (object fs) = undecoded (jx_error "time expected")

abbrev pub members : Value → List (String × Value) × Option String
members (object fs) = (list_of fs, none)
members null = ([], some "object expected")
members (text t) = ([], some "object expected")
members (number n) = ([], some "object expected")
members (identity u) = ([], some "object expected")
members (moment t) = ([], some "object expected")

abbrev pub jx : Jx Value
jx = record {
  null = null;
  str = text;
  int = number;
  int64 = number;
  uuid = identity;
  date_time = moment;
  object = λ fs. object (members_of fs);
  is_null = is_null;
  read_null = read_null;
  read_str = read_text;
  read_int = read_number;
  read_int64 = read_number;
  read_uuid = read_identity;
  read_date_time = read_moment;
  fields = members;
  seconds = λ t. t;
  itoa = λ n. "field";
  is_null-null = refl;
  is_null-str = λ t. refl;
  is_null-uuid = λ u. refl;
  read_null-null = refl;
  read_str-str = λ t. refl;
  read_int-int = λ n. refl;
  read_int64-int64 = λ n. refl;
  read_uuid-uuid = λ u. refl;
  read_date_time-date_time = λ t. refl;
  fields-object = λ fs. ap (λ xs. (xs, none)) (list_of-members_of fs);
}
