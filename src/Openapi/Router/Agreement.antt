-- ===== src/Openapi/Router/Agreement.antt =====
-- shared/pkg/openapi/order/v1/oas_router_gen.go: ServeHTTP and FindPath are generated from one tree.
use microservices_course.Common.{
  ◌≡◌, refl, ap, ◌∙◌, String, Bool, Option, some, none, List, [], ◌∷◌, ◌==◌, string_eq, arith,
  if◌then◌else◌,
}
use microservices_course.Openapi.Router.{
  UrlPackage, Url, cut_prefix, Operation, create_order, get_order, cancel_order, pay_order,
  Dispatch, handle, not_allowed, not_found, serve_action, serve_order, serve_path, routed_path,
  serve_http,
}
use microservices_course.Openapi.Router.Finder.{
  Route, create_route, get_route, cancel_route, pay_route, find_action, find_order, find_root,
  find_path, looked_up, unescape_args,
}

-- The route of the handler that is called.
abbrev pub route_of : Operation → List String → Option Route
route_of create_order [] = some create_route
route_of create_order (arg ∷ rest) = none
route_of get_order (arg ∷ []) = some (get_route arg)
route_of get_order _ = none
route_of cancel_order (arg ∷ []) = some (cancel_route arg)
route_of cancel_order _ = none
route_of pay_order (arg ∷ []) = some (pay_route arg)
route_of pay_order _ = none

abbrev pub handled : Dispatch → Option Route
handled (handle op args escaped) = route_of op args
handled (not_allowed methods headers post) = none
handled not_found = none

module _ (method : String) (escaped : Bool) where
  agree_action :
      (arg elem : String)
      → find_action method arg elem ≡ handled (serve_action method escaped arg elem)
  unfolding find_action serve_action
  agree_action arg elem = ground arith

  agree_order : (elem : String) → find_order method elem ≡ handled (serve_order method escaped elem)
  unfolding find_order serve_order
  agree_order elem = grind (arith, agree_action)

  agree_path :
      (elem : String)
      → find_root method elem
        ≡ handled (if elem == "" then not_found else serve_path method escaped elem)
  unfolding find_root serve_path
  agree_path elem = grind (arith, agree_order)

  agree_cut :
      (cut : Option String)
      → (elim cut [ none ↦ none | some rest ↦ find_root method rest ])
        ≡ handled (elim cut [
          | none ↦ not_found
          | some rest ↦ if rest == "" then not_found else serve_path method escaped rest
        ])
  agree_cut none = refl
  agree_cut (some rest) = agree_path rest

looked_up-routed_path : (p : UrlPackage) (u : Url) → looked_up p u ≡ (routed_path p u).0
unfolding routed_path
looked_up-routed_path p u = ground arith

-- For every method and URL, FindPath finds the route of the handler that ServeHTTP calls, and no
-- route where it calls none; where the URL has a raw path, the arguments of the route are
-- unescaped.
pub find_path-serve_http :
    (p : UrlPackage) (prefix method : String) (u : Url)
    → find_path p prefix method u ≡ (
        if u.raw_path == ""
        then handled (serve_http p prefix method u)
        else unescape_args p (handled (serve_http p prefix method u)))
unfolding find_path serve_http
find_path-serve_http p prefix method u =
    ap (λ found. if u.raw_path == "" then found else unescape_args p found)
      (ap
          (λ elem. elim (cut_prefix prefix elem) [
            | none ↦ none
            | some rest ↦ find_root method rest
          ])
          (looked_up-routed_path p u)
        ∙ agree_cut method (routed_path p u).1 (cut_prefix prefix (routed_path p u).0))
