-- ===== src/Openapi/Json.antt =====
-- shared/pkg/openapi/order/v1/oas_json_gen.go: the JSON of the requests and responses. What it shares:
-- the package jx (with ogen's `json`), the walk over the fields of an object, and the check of the
-- required ones. The types have a module each.
pub mod Fields
pub mod Requests
pub mod Replies
pub mod Dto
pub mod Walk
pub mod RoundTrip
use microservices_course.Common.{
  ℕ, zero, suc, ◌≡◌, String, Bool, true, false, not, ◌&&◌, Option, some, none, List, [], ◌∷◌, ◌++◌,
  if◌then◌else◌,
}
use microservices_course.Common.Int64.{Int64}
use microservices_course.Go.{Uuid, Time}
use Prim.Native.String.{◌++◌ as text_append}

-- An error of a decoder: jx's, by its text; errors.Wrap; and `&validate.Error`, by the names of its
-- fields, all of them with `validate.ErrFieldRequired`.
pub data DecodeError : Type 0 where
  jx : String → DecodeError
  wrap : String → DecodeError → DecodeError
  required : List String → DecodeError

-- What a `Decode` leaves: the value, or an error, and then the value is not read.
pub data Decoded (A : Type 0) : Type 0 where
  decoded : A → Decoded A
  undecoded : DecodeError → Decoded A

abbrev pub and_then : {A B : Type 0} → Decoded A → (A → Decoded B) → Decoded B
and_then (decoded a) f = f a
and_then (undecoded e) f = undecoded e

-- errors.Wrap(err, text)
abbrev pub wrapped : {A : Type 0} → String → Decoded A → Decoded A
wrapped text (decoded a) = decoded a
wrapped text (undecoded e) = undecoded (wrap text e)

-- The encoder and the decoder, over JSON values: `object` writes the fields between ObjStart and
-- ObjEnd, `fields` lists those that ObjBytes calls its function on, with the error that ends it, if
-- any. The readers read back what the writers write; a time keeps its whole seconds.
pub record Jx (V : Type 0) : Type 0 where
  pub null : V
  pub str : String → V
  pub int : ℕ → V
  pub int64 : Int64 → V
  pub uuid : Uuid → V
  pub date_time : Time → V
  pub object : List (String × V) → V
  pub is_null : V → Bool
  pub read_null : V → Decoded (Unit {0})
  pub read_str : V → Decoded String
  pub read_int : V → Decoded ℕ
  pub read_int64 : V → Decoded Int64
  pub read_uuid : V → Decoded Uuid
  pub read_date_time : V → Decoded Time
  pub fields : V → List (String × V) × Option String
  pub seconds : Time → Time
  pub itoa : ℕ → String
  pub is_null-null : is_null null ≡ true
  pub is_null-str : (t : String) → is_null (str t) ≡ false
  pub is_null-uuid : (u : Uuid) → is_null (uuid u) ≡ false
  pub read_null-null : read_null null ≡ decoded tt
  pub read_str-str : (t : String) → read_str (str t) ≡ decoded t
  pub read_int-int : (n : ℕ) → read_int (int n) ≡ decoded n
  pub read_int64-int64 : (n : Int64) → read_int64 (int64 n) ≡ decoded n
  pub read_uuid-uuid : (u : Uuid) → read_uuid (uuid u) ≡ decoded u
  pub read_date_time-date_time : (t : Time) → read_date_time (date_time t) ≡ decoded (seconds t)
  pub fields-object : (fs : List (String × V)) → fields (object fs) ≡ (fs, none)

-- `requiredBitSet`: bytes, each as its bits with the lowest first.
abbrev pub Bits : Type 0
Bits = List Bool

abbrev pub no_bits : Bits
no_bits = false ∷ false ∷ false ∷ false ∷ false ∷ false ∷ false ∷ false ∷ []

-- `b |= 1 << n`
abbrev pub set_bit : ℕ → Bits → Bits
set_bit n [] = []
set_bit zero (b ∷ bs) = true ∷ bs
set_bit (suc n) (b ∷ bs) = b ∷ set_bit n bs

-- `requiredBitSet[i] |= 1 << n`
abbrev pub set_required : ℕ → ℕ → List Bits → List Bits
set_required i n [] = []
set_required zero n (b ∷ bs) = set_bit n b ∷ bs
set_required (suc i) n (b ∷ bs) = b ∷ set_required i n bs

-- `(b & mask) ^ mask`
abbrev pub missed : Bits → Bits → Bits
missed (b ∷ bs) (m ∷ ms) = (if m then not (b && m) else b && m) ∷ missed bs ms
missed [] ms = []
missed (b ∷ bs) [] = []

-- The name of a field by its index.
abbrev pub name_at : {V : Type 0} → Jx V → List String → ℕ → ℕ → String
name_at j [] i whole = j.itoa whole
name_at j (name ∷ names) zero whole = name
name_at j (name ∷ names) (suc i) whole = name_at j names i whole

-- The loop over the bits that are set in `result`, from the lowest; `i` is the index of its first bit.
unfoldable pub failures_of : {V : Type 0} → Jx V → List String → ℕ → Bits → List String
failures_of j names i [] = []
failures_of j names i (false ∷ result) = failures_of j names (suc i) result
failures_of j names i (true ∷ result) = name_at j names i i ∷ failures_of j names (suc i) result

-- The loop over the bytes; `i` is the index of the first bit of the first of them.
unfoldable pub failures :
    {V : Type 0} → Jx V → List String → ℕ → List Bits → List Bits → List String
failures j names i (b ∷ bits) (mask ∷ masks) =
    failures_of j names i (missed b mask)
    ++ failures j names (suc (suc (suc (suc (suc (suc (suc (suc i)))))))) bits masks
failures j names i bits [] = []
failures j names i [] (mask ∷ masks) = []

-- Validate required fields.
abbrev pub checked : {A : Type 0} → List String → A → Decoded A
checked [] a = decoded a
checked (name ∷ names) a = undecoded (required (name ∷ names))

-- The function that ObjBytes calls, on each field.
unfoldable pub walk :
    {A V : Type 0} → (A → String → V → Decoded A) → A → List (String × V) → Decoded A
walk f a [] = decoded a
walk f a ((k, v) ∷ fs) = elim (f a k v) [ decoded b ↦ walk f b fs | undecoded e ↦ undecoded e ]

abbrev pub ended : {A : Type 0} → Option String → A → Decoded A
ended none a = decoded a
ended (some text) a = undecoded (jx text)

-- `d.ObjBytes(f)`
abbrev pub obj_bytes : {A V : Type 0} → Jx V → (A → String → V → Decoded A) → A → V → Decoded A
obj_bytes j f a v = let (fs, end) = j.fields v in and_then (walk f a fs) (ended end)

abbrev pub field_context : String → String
field_context name = text_append "decode field \"" (text_append name "\"")

-- A case of the switch: read the value and store it, or wrap the error.
abbrev pub into : {A B : Type 0} → String → Decoded B → (B → A) → Decoded A
into name (decoded b) put = decoded (put b)
into name (undecoded e) put = undecoded (wrap (field_context name) e)
