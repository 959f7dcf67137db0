-- ===== src/Client/Router/Session.antt =====
-- The router on the page: `current_route`, `set_path` and `RouterHandle` of
-- crates/frontend/src/router.rs. The window and its history are parameters.
use dreamwell.Common.{
  ◌≡◌, refl, sym, ap, ◌∙◌, Bool, true, false, Option, none, some, String, arith, if◌then◌else◌,
  opt_map, unwrap_or, ◌==◌, ==_iff, string_eq,
}
use dreamwell.Client.Router.{AppRoute, default_route, to_path}
use dreamwell.Client.Router.Parse.{parse_path}
use dreamwell.Client.Router.RoundTrip.{canonical, InRange, parse_path-to_path}
use dreamwell.Client.Router.Settled.{to_path-settles}

-- What the browser gives: the path of the window's location, where it can be read, whether there is
-- a history, the two entries that a path can become, and the step back.
pub record Browser {ℓ} (Window : Type ℓ) : Type ℓ where
  pub pathname : Window → Option String
  pub has_history : Window → Bool
  pub push_state : String → Window → Window
  pub replace_state : String → Window → Window
  pub back : Window → Window

-- The location shows the path that was last pushed or put in place, a step back from a pushed entry
-- that of the entry before, and the history does not go.
pub record ShowsPath {ℓ} {Window : Type ℓ} (b : Browser Window) : Type ℓ where
  pub pushed : (path : String) (w : Window) → b.pathname (b.push_state path w) ≡ some path
  pub replaced : (path : String) (w : Window) → b.pathname (b.replace_state path w) ≡ some path
  pub returned :
      (path : String) (w : Window) → b.pathname (b.back (b.push_state path w)) ≡ b.pathname w
  pub kept_pushed :
      (path : String) (w : Window) → b.has_history (b.push_state path w) ≡ b.has_history w
  pub kept_replaced :
      (path : String) (w : Window) → b.has_history (b.replace_state path w) ≡ b.has_history w

module _ {ℓ} {Window : Type ℓ} (b : Browser Window) where
  pub current_route : Window → AppRoute
  current_route w = unwrap_or (opt_map parse_path (b.pathname w)) default_route

  pub set_path : AppRoute → Bool → Window → Window
  set_path route push w = elim (b.pathname w) [
    | none ↦ w
    | some current ↦
        if b.has_history w
        then (if current == to_path route
            then w
            else if push
            then b.push_state (to_path route) w
            else b.replace_state (to_path route) w)
        else w
  ]

  -- The route of the handle and the window.
  pub navigate : AppRoute → Bool → Window → AppRoute × Window
  unfolding set_path
  navigate route push w = (route, set_path route push w)

  pub history_back : Window → Window
  history_back w = if b.has_history w then b.back w else w

  -- The effect of `use_router` when the page is loaded, and the listener of `popstate`.
  pub mount : Window → AppRoute × Window
  unfolding set_path current_route
  mount w = (current_route w, set_path (current_route w) false w)

  pub popstate : Window → AppRoute
  unfolding current_route
  popstate w = current_route w

module _ {ℓ} {Window : Type ℓ} (b : Browser Window) (shows : ShowsPath b) where
  -- The path that the window shows once a route was set.
  set_path-pathname :
      (route : AppRoute) (push : Bool) (w : Window) (current : String)
      → b.pathname w ≡ some current
      → b.has_history w ≡ true
      → b.pathname (set_path b route push w) ≡ some (to_path route)
  unfolding set_path
  set_path-pathname route push w current h k = ground (
    arith,
    ==_iff current (to_path route),
    shows.pushed (to_path route) w,
    shows.replaced (to_path route) w,
  )

  set_path_same :
      (route : AppRoute) (push : Bool) (w : Window)
      → b.pathname w ≡ some (to_path route)
      → set_path b route push w ≡ w
  unfolding set_path
  set_path_same route push w h = ground (arith, ==_iff (to_path route) (to_path route))

  current_route-pathname :
      (w : Window) (path : String) → b.pathname w ≡ some path → current_route b w ≡ parse_path path
  unfolding current_route
  current_route-pathname w path h = rw h refl

  set_path-has_history :
      (route : AppRoute) (push : Bool) (w : Window) (current : String)
      → b.pathname w ≡ some current
      → b.has_history w ≡ true
      → b.has_history (set_path b route push w) ≡ true
  unfolding set_path
  set_path-has_history route push w current h k =
      ground (arith, shows.kept_pushed (to_path route) w, shows.kept_replaced (to_path route) w)

  set_path_pushed :
      (route : AppRoute) (w : Window) (current : String)
      → b.pathname w ≡ some current
      → b.has_history w ≡ true
      → (current == to_path route) ≡ false
      → set_path b route true w ≡ b.push_state (to_path route) w
  unfolding set_path
  set_path_pushed route w current h k other = ground arith

  -- Where there is a window with a history: after a navigation to one route and then, with a new
  -- entry, to a route with another path, the listener of the step back reads the first route in its
  -- canonical form, if its ids are `i64` values.
  pub popstate-history_back :
      (first second : AppRoute) (push : Bool) (w : Window) (current : String)
      → b.pathname w ≡ some current
      → b.has_history w ≡ true
      → InRange first
      → (to_path first == to_path second) ≡ false
      → popstate b (history_back b (navigate b second true (navigate b first push w).1).1)
        ≡ canonical first
  unfolding popstate navigate history_back
  popstate-history_back first second push w current h k r other =
      let there : Window = set_path b first push w in
      let shown : b.pathname there ≡ some (to_path first) =
        set_path-pathname first push w current h k in
      let kept : b.has_history there ≡ true = set_path-has_history first push w current h k in
      let pushed = set_path_pushed second there (to_path first) shown kept other in
      let still : b.has_history (b.push_state (to_path second) there) ≡ true =
        shows.kept_pushed (to_path second) there ∙ kept in
      rw (pushed, still)
        (current_route-pathname (b.back (b.push_state (to_path second) there)) (to_path first)
            (shows.returned (to_path second) there ∙ shown)
          ∙ parse_path-to_path first r)

  -- Where there is a window with a history, loading the page a second time leaves the window
  -- as it is.
  pub mount-mount :
      (w : Window) (current : String)
      → b.pathname w ≡ some current
      → b.has_history w ≡ true
      → (mount b (mount b w).1).1 ≡ (mount b w).1
  unfolding mount
  mount-mount w current h k =
      let first : AppRoute = parse_path current in
      let route_read : current_route b w ≡ first = current_route-pathname w current h in
      let shown : b.pathname (mount b w).1 ≡ some (to_path first) =
        set_path-pathname (current_route b w) false w current h k
        ∙ ap (λ r. some (to_path r)) route_read in
      let again : current_route b (mount b w).1 ≡ parse_path (to_path first) =
        current_route-pathname (mount b w).1 (to_path first) shown in
      set_path_same (current_route b (mount b w).1) false (mount b w).1
        (shown ∙ ap some (sym (to_path-settles current)) ∙ ap (λ r. some (to_path r)) (sym again))
