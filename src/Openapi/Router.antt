-- ===== src/Openapi/Router.antt =====
-- shared/pkg/openapi/order/v1/oas_router_gen.go: which handler a request goes to. The packages `net/url`
-- and ogen's `uri` are parameters.
pub mod Finder
pub mod Agreement
pub mod Paths
use Prim.Native.String.{[] as empty_text, ◌∷◌ as char_cons}
use Prim.Native.Char.{code}
use microservices_course.Common.{
  String, Bool, true, false, Option, some, none, List, [], ◌∷◌, ◌==◌, nat_eq, string_eq,
  if◌then◌else◌,
}

-- uri.NormalizeEscapedPath, url.PathUnescape and DecodeValue of a path decoder in the simple style,
-- with `none` for false and for an error, and strings.ContainsRune(s, '%').
pub record UrlPackage : Type 0 where
  pub normalize : String → Option String
  pub path_unescape : String → Option String
  pub decode_value : String → Option String
  pub has_percent : String → Bool

pub record Url : Type 0 where
  pub path : String
  pub raw_path : String

-- The text after a prefix: `if len(s) >= l && s[0:l] == prefix { s = s[l:] }`
unfoldable pub strip : String → String → Option String
strip empty_text s = some s
strip (char_cons c p) empty_text = none
strip (char_cons c p) (char_cons d s) =
    let rest = strip p s in if code c == code d then rest else none

-- `s[0] == c`, for the first character of `c`
abbrev pub starts : String → String → Bool
starts empty_text s = true
starts (char_cons c p) empty_text = false
starts (char_cons c p) (char_cons d s) = code c == code d

-- `s[:idx]` and `s[idx:]`, for the index of the first '/' or the length
unfoldable pub until_slash : String → String × String
until_slash empty_text = ("", "")
until_slash (char_cons c s) =
    let rest = until_slash s in
    if starts "/" (char_cons c s) then ("", char_cons c s) else (char_cons c rest.0, rest.1)

-- (*Server).cutPrefix
unfoldable pub cut_prefix : String → String → Option String
unfolding strip
cut_prefix prefix path = if prefix == "" then some path else strip prefix path

pub data Operation : Type 0 where
  create_order get_order cancel_order pay_order : Operation

-- What ServeHTTP does: the call of a handler with the arguments and `elemIsEscaped`, notAllowed with
-- the methods, whether there are allowed headers, and what a POST accepts, or notFound.
pub data Dispatch : Type 0 where
  handle : Operation → List String → Bool → Dispatch
  not_allowed : String → Option String → String → Dispatch
  not_found : Dispatch

-- The node of /api/v1/orders/{order_uuid}/...
unfoldable pub serve_action : String → Bool → String → String → Dispatch
unfolding strip
serve_action method escaped arg elem =
    if elem == ""
    then not_found
    else if starts "c" elem
    then elim (strip "cancel" elem) [
      | none ↦ not_found
      | some rest ↦
          if rest == ""
          then if method == "POST"
            then handle cancel_order (arg ∷ []) escaped
            else not_allowed "POST" none ""
          else not_found
    ]
    else if starts "p" elem
    then elim (strip "pay" elem) [
      | none ↦ not_found
      | some rest ↦
          if rest == ""
          then if method == "POST"
            then handle pay_order (arg ∷ []) escaped
            else not_allowed "POST" (some "Content-Type") "application/json"
          else not_found
    ]
    else not_found

-- The node of /api/v1/orders/...
unfoldable pub serve_order : String → Bool → String → Dispatch
unfolding strip until_slash serve_action
serve_order method escaped elem =
    if starts "/" elem
    then elim (strip "/" elem) [
      | none ↦ not_found
      | some tail ↦
          let (arg, rest) = until_slash tail in
          if rest == ""
          then if method == "GET"
            then handle get_order (arg ∷ []) escaped
            else not_allowed "GET" none ""
          else if starts "/" rest
          then elim (strip "/" rest) [
            | none ↦ not_found
            | some action ↦ serve_action method escaped arg action
          ]
          else not_found
    ]
    else not_found

-- The root of the tree.
unfoldable pub serve_path : String → Bool → String → Dispatch
unfolding strip serve_order
serve_path method escaped elem =
    if starts "/" elem
    then elim (strip "/api/v1/orders" elem) [
      | none ↦ not_found
      | some rest ↦
          if rest == ""
          then if method == "POST"
            then handle create_order [] escaped
            else not_allowed "POST" (some "Content-Type") "application/json"
          else serve_order method escaped rest
    ]
    else not_found

-- The path that is routed, and `elemIsEscaped`.
unfoldable pub routed_path : UrlPackage → Url → String × Bool
routed_path p u = if u.raw_path == "" then (u.path, false) else elim (p.normalize u.raw_path) [
  | none ↦ (u.path, false)
  | some normalized ↦ (normalized, p.has_percent normalized)
]

-- (*Server).ServeHTTP
unfoldable pub serve_http : UrlPackage → String → String → Url → Dispatch
unfolding routed_path cut_prefix serve_path
serve_http p prefix method u =
    let (elem, escaped) = routed_path p u in
    elim (cut_prefix prefix elem) [
      | none ↦ not_found
      | some rest ↦ if rest == "" then not_found else serve_path method escaped rest
    ]
