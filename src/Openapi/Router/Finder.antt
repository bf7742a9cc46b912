-- ===== src/Openapi/Router/Finder.antt =====
-- shared/pkg/openapi/order/v1/oas_router_gen.go: which operation a path and a method name.
use microservices_course.Common.{
  String, Option, some, none, List, [], ◌∷◌, ◌==◌, string_eq, if◌then◌else◌, map,
}
use microservices_course.Openapi.Router.{UrlPackage, Url, strip, starts, until_slash, cut_prefix}

-- Route; `args` are the first `count` of the struct's, as Args returns them.
pub record Route : Type 0 where
  pub name : String
  pub summary : String
  pub operation_id : String
  pub operation_group : String
  pub path_pattern : String
  pub args : List String

abbrev pub create_route : Route
create_route = record {
  name = "CreateOrder";
  summary = "Создать заказ";
  operation_id = "createOrder";
  operation_group = "";
  path_pattern = "/api/v1/orders";
  args = [];
}

abbrev pub get_route : String → Route
get_route arg = record {
  name = "GetOrder";
  summary = "Получить заказ по UUID";
  operation_id = "getOrder";
  operation_group = "";
  path_pattern = "/api/v1/orders/{order_uuid}";
  args = arg ∷ [];
}

abbrev pub cancel_route : String → Route
cancel_route arg = record {
  name = "CancelOrder";
  summary = "Отменить заказ";
  operation_id = "cancelOrder";
  operation_group = "";
  path_pattern = "/api/v1/orders/{order_uuid}/cancel";
  args = arg ∷ [];
}

abbrev pub pay_route : String → Route
pay_route arg = record {
  name = "PayOrder";
  summary = "Оплатить заказ";
  operation_id = "payOrder";
  operation_group = "";
  path_pattern = "/api/v1/orders/{order_uuid}/pay";
  args = arg ∷ [];
}

-- The node of /api/v1/orders/{order_uuid}/...
unfoldable pub find_action : String → String → String → Option Route
unfolding strip
find_action method arg elem =
    if elem == ""
    then none
    else if starts "c" elem
    then elim (strip "cancel" elem) [
      | none ↦ none
      | some rest ↦
          if rest == "" then if method == "POST" then some (cancel_route arg) else none else none
    ]
    else if starts "p" elem
    then elim (strip "pay" elem) [
      | none ↦ none
      | some rest ↦
          if rest == "" then if method == "POST" then some (pay_route arg) else none else none
    ]
    else none

-- The node of /api/v1/orders/...
unfoldable pub find_order : String → String → Option Route
unfolding strip until_slash find_action
find_order method elem =
    if starts "/" elem
    then elim (strip "/" elem) [
      | none ↦ none
      | some tail ↦
          let (arg, rest) = until_slash tail in
          if rest == ""
          then if method == "GET" then some (get_route arg) else none
          else if starts "/" rest
          then elim (strip "/" rest) [ none ↦ none | some action ↦ find_action method arg action ]
          else none
    ]
    else none

-- The root of the tree.
unfoldable pub find_root : String → String → Option Route
unfolding strip find_order
find_root method elem =
    if elem == ""
    then none
    else if starts "/" elem
    then elim (strip "/api/v1/orders" elem) [
      | none ↦ none
      | some rest ↦
          if rest == ""
          then if method == "POST" then some create_route else none
          else find_order method rest
    ]
    else none

-- The deferred loop: an argument that cannot be unescaped stays as it is.
abbrev pub unescape_arg : UrlPackage → String → String
unescape_arg p arg = elim (p.path_unescape arg) [ none ↦ arg | some unescaped ↦ unescaped ]

abbrev pub unescape_args : UrlPackage → Option Route → Option Route
unescape_args p none = none
unescape_args p (some r) = some (record r { args = map (unescape_arg p) r.args })

-- The path that is looked up, and whether the arguments are unescaped.
abbrev pub looked_up : UrlPackage → Url → String
looked_up p u =
    if u.raw_path == ""
    then u.path
    else elim (p.normalize u.raw_path) [ none ↦ u.path | some normalized ↦ normalized ]

-- (*Server).FindPath; `none` is the zero Route with false
unfoldable pub find_path : UrlPackage → String → String → Url → Option Route
unfolding cut_prefix find_root
find_path p prefix method u =
    let found : Option Route = elim (cut_prefix prefix (looked_up p u)) [
      | none ↦ none
      | some rest ↦ find_root method rest
    ] in
    if u.raw_path == "" then found else unescape_args p found

-- (*Server).FindRoute
unfoldable pub find_route : UrlPackage → String → String → String → Option Route
unfolding find_path
find_route p prefix method path = find_path p prefix method (record { path = path; raw_path = "" })
