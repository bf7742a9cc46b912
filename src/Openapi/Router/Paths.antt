-- ===== src/Openapi/Router/Paths.antt =====
-- shared/pkg/openapi/order/v1/oas_router_gen.go and oas_client_gen.go: the path of an operation, as the
-- client writes it, and where it is routed.
use Prim.Native.String.{[] as empty_text, ◌∷◌ as char_cons, ◌++◌ as text_append}
use Prim.Native.String.append
use Prim.Native.Char.{Char, code}
use microservices_course.Common.{
  nat_beq_iff, eq_iff, Bool-cases, inl, inr, ◌≡◌, refl, sym, ap, ◌∙◌, String, Bool, true, false,
  some, none, List, [], ◌∷◌, ◌==◌, nat_eq, string_eq, if◌then◌else◌, arith,
}
use microservices_course.Openapi.Router.{
  UrlPackage, strip, starts, until_slash, cut_prefix, Operation, create_order, get_order,
  cancel_order, pay_order, handle, not_allowed, serve_http, serve_path, serve_order, serve_action,
  routed_path,
}

abbrev slash : Char
slash = "/"

-- No character of the text is '/'.
abbrev pub NoSlash : String → Type 0
NoSlash empty_text = Unit
NoSlash (char_cons c s) = (starts "/" (char_cons c s) ≡ false) × NoSlash s

strip-append : (p s : String) → strip p (text_append p s) ≡ some s
unfolding strip
strip-append empty_text s = ap (strip "") (append.nil s)
strip-append (char_cons c p) s =
    ap (strip (char_cons c p)) (append.cons c p s)
    ∙ (rw ((nat_beq_iff (code c) (code c)).1 refl) (strip-append p s))

-- A text without '/' is read up to the end, or up to a '/' that follows.
until_slash-NoSlash : (arg : String) → NoSlash arg → until_slash arg ≡ (arg, "")
unfolding until_slash
until_slash-NoSlash empty_text h = refl
until_slash-NoSlash (char_cons c arg) (n, h) =
    rw n (ap (λ x. (char_cons c x.0, x.1)) (until_slash-NoSlash arg h))

until_slash-append :
    (arg s : String)
    → NoSlash arg
    → until_slash (text_append arg (char_cons slash s)) ≡ (arg, char_cons slash s)
unfolding until_slash
until_slash-append empty_text s h = ap until_slash (append.nil (char_cons slash s))
until_slash-append (char_cons c arg) s (n, h) =
    ap until_slash (append.cons c arg (char_cons slash s))
    ∙ rw n (ap (λ x. (char_cons c x.0, x.1)) (until_slash-append arg s h))

append_assoc : (a b c : String) → text_append (text_append a b) c ≡ text_append a (text_append b c)
append_assoc empty_text b c =
    ap (λ x. text_append x c) (append.nil b) ∙ sym (append.nil (text_append b c))
append_assoc (char_cons d a) b c =
    ap (λ x. text_append x c) (append.cons d a b)
    ∙ append.cons d (text_append a b) c
    ∙ ap (char_cons d) (append_assoc a b c)
    ∙ sym (append.cons d a (text_append b c))

is_cons : String → Bool
is_cons empty_text = false
is_cons (char_cons c s) = true

cons_not_empty : (c : Char) (s : String) → (char_cons c s == "") ≡ false
unfolding is_cons
cons_not_empty c s = elim (Bool-cases (char_cons c s == "")) [
  | inl e ↦ absurd (true_not_false (ap is_cons ((eq_iff (char_cons c s) "").0 e)))
  | inr e ↦ e
]
  where
    true_not_false : true ≡ false → ⊥
    true_not_false e = ground arith

-- The method and the path of each operation, with the argument in its place.
abbrev pub method_of : Operation → String
method_of create_order = "POST"
method_of get_order = "GET"
method_of cancel_order = "POST"
method_of pay_order = "POST"

-- What follows the argument.
abbrev pub suffix_of : Operation → String
suffix_of create_order = ""
suffix_of get_order = ""
suffix_of cancel_order = "/cancel"
suffix_of pay_order = "/pay"

abbrev pub path_of : Operation → String → String
path_of create_order arg = "/api/v1/orders"
path_of get_order arg = text_append "/api/v1/orders/" arg
path_of cancel_order arg = text_append "/api/v1/orders/" (text_append arg "/cancel")
path_of pay_order arg = text_append "/api/v1/orders/" (text_append arg "/pay")

abbrev pub args_of : Operation → String → List String
args_of create_order arg = []
args_of get_order arg = arg ∷ []
args_of cancel_order arg = arg ∷ []
args_of pay_order arg = arg ∷ []

module _ (method : String) (escaped : Bool) where
  -- Below "/api/v1/orders".
  serve_below :
      (s : String)
      → serve_path method escaped (text_append "/api/v1/orders/" s)
        ≡ serve_order method escaped (char_cons slash s)
  unfolding serve_path
  serve_below s =
      ap (serve_path method escaped) (append_assoc "/api/v1/orders" "/" s)
      ∙ rw (ap (starts "/") (append.cons slash "api/v1/orders" (text_append "/" s))) (
          rw (strip-append "/api/v1/orders" (text_append "/" s)) (
            rw (ap (λ x. x == "") (append.cons slash "" s) ∙ cons_not_empty slash _) (
              ap (serve_order method escaped)
                (append.cons slash "" s ∙ ap (char_cons slash) (append.nil s)))))

  serve_leaf :
      (arg s : String)
      → NoSlash arg
      → serve_order method escaped (char_cons slash (text_append arg (char_cons slash s)))
        ≡ serve_action method escaped arg s
  unfolding serve_order strip
  serve_leaf arg s h = rw (until_slash-append arg s h) (
      rw (cons_not_empty slash s)
        (ap (λ x. serve_action method escaped x.0 s) (until_slash-append arg s h)))

  serve_arg :
      (arg : String)
      → NoSlash arg
      → serve_order method escaped (char_cons slash arg) ≡ (
          if method == "GET"
          then handle get_order (arg ∷ []) escaped
          else not_allowed "GET" none "")
  unfolding serve_order strip
  serve_arg arg h = rw (until_slash-NoSlash arg h) refl

routed_leaf :
    (op : Operation) (arg : String)
    → NoSlash arg
    → serve_path (method_of op) false (path_of op arg) ≡ handle op (args_of op arg) false
unfolding serve_action serve_path
routed_leaf create_order arg h = refl
routed_leaf get_order arg h = serve_below "GET" false arg ∙ serve_arg "GET" false arg h
routed_leaf cancel_order arg h =
    serve_below "POST" false (text_append arg "/cancel") ∙ serve_leaf "POST" false arg "cancel" h
routed_leaf pay_order arg h =
    serve_below "POST" false (text_append arg "/pay") ∙ serve_leaf "POST" false arg "pay" h

path_of_not_empty : (op : Operation) (arg : String) → (path_of op arg == "") ≡ false
path_of_not_empty create_order arg = refl
path_of_not_empty get_order arg =
    ap (λ x. x == "") (append.cons slash "api/v1/orders/" arg) ∙ cons_not_empty slash _
path_of_not_empty cancel_order arg =
    ap (λ x. x == "") (append.cons slash "api/v1/orders/" (text_append arg "/cancel"))
    ∙ cons_not_empty slash _
path_of_not_empty pay_order arg =
    ap (λ x. x == "") (append.cons slash "api/v1/orders/" (text_append arg "/pay"))
    ∙ cons_not_empty slash _

cut_prefix-append : (prefix s : String) → cut_prefix prefix (text_append prefix s) ≡ some s
unfolding cut_prefix
cut_prefix-append prefix s = elim (Bool-cases (prefix == "")) [
  | inl e ↦ rw e (ap some (ap (λ x. text_append x s) ((eq_iff prefix "").0 e) ∙ append.nil s))
  | inr e ↦ rw e (strip-append prefix s)
]

-- A request to the path of an operation, below any prefix of the server, with its method and an
-- argument without '/', goes to the handler of that operation with that argument.
pub serve_http-path_of :
    (p : UrlPackage) (prefix : String) (op : Operation) (arg : String)
    → NoSlash arg
    → serve_http p prefix
        (method_of op)
        (record { path = text_append prefix (path_of op arg); raw_path = "" })
      ≡ handle op (args_of op arg) false
unfolding serve_http routed_path
serve_http-path_of p prefix op arg h =
    rw (cut_prefix-append prefix (path_of op arg), serve_http)
      (rw (path_of_not_empty op arg) (routed_leaf op arg h))
