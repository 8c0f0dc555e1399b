-- ===== src/App/Start/Table.antt =====
-- app/app.c: the routes of the application, as a table.
use mathlib.Core.Path.{subst}
use tiny_https_server.Prelude.{
  ℕ, ◌≡◌, refl, sym, ap, ◌∙◌, inl, inr, Bool, true, false, Option, none, some, List, [], ◌∷◌,
  if◌then◌else◌, Bytes, codes, str_eq, str_eq_sound, Bool-cases,
}
use tiny_https_server.Routes.{
  Store, PathName, Junk, Method, http_register_method, http_init_url_paths, http_create_url_path,
  http_add_child_path, add_paths, http_resolve_path, resolve_loop, find_child, skip_slashes,
  skip_segment, set_method, handler,
}
use tiny_https_server.Routes.Flat.Refine.{resolve_flat}
use tiny_https_server.Routes.Flat.{lookup, route, route_to, take_segment, is_nil, AreLeaves, flat}
use tiny_https_server.Routes.Register.RoundTrip.{
  answer, answer_at, handler_root, leaf_for, or_root, answer-flat,
}
use tiny_https_server.App.Start.{
  Handler, get_resource, get_login, post_login, post_logout, get_register, post_register, get_home,
  get_coins, get_coin, post_coin, registrations, register_all, app_options, app_start, paths_from,
}
use tiny_https_server.Session.Store.{Engine, http_session_engine_start}

-- What the application answers to a GET and to a POST, by the first segment of the path.
abbrev pub on_get : Bytes → Handler
on_get seg =
    if str_eq seg (codes "login")
    then get_login
    else if str_eq seg (codes "logout")
    then post_logout
    else if str_eq seg (codes "register")
    then get_register
    else if str_eq seg (codes "home")
    then get_home
    else if str_eq seg (codes "coins")
    then get_coins
    else if str_eq seg (codes "coin")
    then get_coin
    else get_resource

abbrev pub on_post : Bytes → Option Handler
on_post seg =
    if str_eq seg (codes "login")
    then some post_login
    else if str_eq seg (codes "register")
    then some post_register
    else if str_eq seg (codes "coin")
    then some post_coin
    else none

abbrev leaf : Junk Handler → Bytes → Option Handler → Option Handler → PathName Handler
leaf junk p g q = record {
  on_get = g;
  on_post = q;
  on_put = junk.put;
  on_patch = junk.patch;
  on_delete = junk.delete;
  paths = [];
  path = p;
}

abbrev leaves : Junk Handler → List (PathName Handler)
leaves junk =
    leaf junk (codes "login") (some get_login) (some post_login)
    ∷ leaf junk (codes "logout") (some post_logout) none
    ∷ leaf junk (codes "register") (some get_register) (some post_register)
    ∷ leaf junk (codes "home") (some get_home) none
    ∷ leaf junk (codes "coins") (some get_coins) none
    ∷ leaf junk (codes "coin") (some get_coin) (some post_coin)
    ∷ []

abbrev pub app_tree : Junk Handler → Store Handler
app_tree junk = flat (leaf junk [] (some get_resource) none) (leaves junk)

leaves-AreLeaves : (junk : Junk Handler) → AreLeaves (leaves junk)
leaves-AreLeaves junk = (
  refl,
  (refl, refl),
  (
    refl,
    (refl, refl),
    (refl, (refl, refl), (refl, (refl, refl), (refl, (refl, refl), (refl, (refl, refl), tt)))),
  ),
)

registered :
    (junk : Junk Handler)
    → register_all junk (http_init_url_paths junk) registrations ≡ some (app_tree junk)
unfolding register_all http_register_method http_init_url_paths http_create_url_path
    http_add_child_path add_paths http_resolve_path resolve_loop find_child skip_slashes
    skip_segment set_method handler
registered junk = refl

abbrev root : Junk Handler → PathName Handler
root junk = leaf junk [] (some get_resource) none

-- The leaf that six tests choose.
abbrev chosen : Junk Handler → Bool → Bool → Bool → Bool → Bool → Bool → Option (PathName Handler)
chosen junk a b c d e f =
    if a
    then some (leaf junk (codes "login") (some get_login) (some post_login))
    else if b
    then some (leaf junk (codes "logout") (some post_logout) none)
    else if c
    then some (leaf junk (codes "register") (some get_register) (some post_register))
    else if d
    then some (leaf junk (codes "home") (some get_home) none)
    else if e
    then some (leaf junk (codes "coins") (some get_coins) none)
    else if f
    then some (leaf junk (codes "coin") (some get_coin) (some post_coin))
    else none

get_choice :
    (junk : Junk Handler) (a b c d e f : Bool)
    → handler (or_root (root junk) (chosen junk a b c d e f)) Method.get
      ≡ some (
          if a
          then get_login
          else if b
          then post_logout
          else if c
          then get_register
          else if d
          then get_home
          else if e
          then get_coins
          else if f
          then get_coin
          else get_resource)
unfolding handler
get_choice junk true b c d e f = refl
get_choice junk false true c d e f = refl
get_choice junk false false true d e f = refl
get_choice junk false false false true e f = refl
get_choice junk false false false false true f = refl
get_choice junk false false false false false true = refl
get_choice junk false false false false false false = refl

post_choice :
    (junk : Junk Handler) (a b c d e f : Bool)
    → b ≡ false
    → d ≡ false
    → e ≡ false
    → handler (or_root (root junk) (chosen junk a b c d e f)) Method.post ≡ (
        if a
        then some post_login
        else if c
        then some post_register
        else if f
        then some post_coin
        else none)
unfolding handler
post_choice junk true b c d e f hb hd he = refl
post_choice junk false true c d e f hb hd he = cc
post_choice junk false false true d e f hb hd he = refl
post_choice junk false false false true e f hb hd he = cc
post_choice junk false false false false true f hb hd he = cc
post_choice junk false false false false false true hb hd he = refl
post_choice junk false false false false false false hb hd he = refl

get_of :
    (junk : Junk Handler) (seg : Bytes)
    → handler (or_root (root junk) (leaf_for (leaves junk) seg)) Method.get ≡ some (on_get seg)
unfolding leaf_for
get_of junk seg =
    get_choice junk (str_eq seg (codes "login")) (str_eq seg (codes "logout"))
      (str_eq seg (codes "register")) (str_eq seg (codes "home")) (str_eq seg (codes "coins"))
      (str_eq seg (codes "coin"))

abbrev PostOf : Junk Handler → Bytes → Type 0
PostOf junk seg =
    handler (or_root (root junk) (leaf_for (leaves junk) seg)) Method.post ≡ on_post seg

-- The segments of pages that are only read.
only_get :
    (junk : Junk Handler)
    → PostOf junk (codes "logout") × PostOf junk (codes "home") × PostOf junk (codes "coins")
unfolding handler leaf_for
only_get junk = (refl, refl, refl)

post_of : (junk : Junk Handler) (seg : Bytes) → PostOf junk seg
unfolding leaf_for
post_of junk seg = elim (Bool-cases (str_eq seg (codes "logout"))) [
  | inl out ↦ subst (PostOf junk) (sym (str_eq_sound seg (codes "logout") out)) (only_get junk).0
  | inr b ↦ elim (Bool-cases (str_eq seg (codes "home"))) [
    | inl home ↦ subst (PostOf junk) (sym (str_eq_sound seg (codes "home") home)) (only_get junk).1
    | inr d ↦ elim (Bool-cases (str_eq seg (codes "coins"))) [
      | inl coins ↦
          subst (PostOf junk) (sym (str_eq_sound seg (codes "coins") coins)) (only_get junk).2
      | inr e ↦
          post_choice junk (str_eq seg (codes "login")) (str_eq seg (codes "logout"))
            (str_eq seg (codes "register")) (str_eq seg (codes "home")) (str_eq seg (codes "coins"))
            (str_eq seg (codes "coin")) b d e
    ]
  ]
]

nil_sound : (p : Bytes) → is_nil p ≡ true → p ≡ []
nil_sound [] e = refl
nil_sound (c ∷ p) e = cc

-- A path of slashes alone is that of the root, and has the empty first segment.
at_root :
    (junk : Junk Handler) (p : Bytes) (m : Method)
    → is_nil (skip_slashes p) ≡ true
    → answer (app_tree junk) p m ≡ some (handler (root junk) m)
unfolding route
at_root junk p m e =
    answer_at (app_tree junk) p m (0, none)
      (resolve_flat (root junk) (leaves junk) (leaves-AreLeaves junk) p
        ∙ ap
            (λ b. some (
              if b
              then (0, none)
              else route_to (skip_slashes p)
                  (lookup 1 (leaves junk) (take_segment (skip_slashes p)))))
            e)
    ∙ ap some (handler_root (root junk) _ m)

no_segment : (p : Bytes) → is_nil (skip_slashes p) ≡ true → take_segment (skip_slashes p) ≡ []
unfolding take_segment
no_segment p e = ap take_segment (nil_sound (skip_slashes p) e)

answers :
    (junk : Junk Handler) (p : Bytes)
    → let seg = take_segment (skip_slashes p) in
      (answer (app_tree junk) p Method.get ≡ some (some (on_get seg)))
      × (answer (app_tree junk) p Method.post ≡ some (on_post seg))
unfolding handler
answers junk p = elim (Bool-cases (is_nil (skip_slashes p))) [
  | inl e ↦ (
    at_root junk p Method.get e ∙ ap (λ s. some (some (on_get s))) (sym (no_segment p e)),
    at_root junk p Method.post e ∙ ap (λ s. some (on_post s)) (sym (no_segment p e)),
  )
  | inr e ↦ (
    answer-flat (root junk) (leaves junk) (leaves-AreLeaves junk) p Method.get e
        ∙ ap some (get_of junk _),
    answer-flat (root junk) (leaves junk) (leaves-AreLeaves junk) p Method.post e
        ∙ ap some (post_of junk _),
  )
]

-- The options name a root: on the tree of a new server `app_start` registers its routes, and then
-- every path gets, by its first segment, the handlers of that page for GET and for POST; a path of
-- another segment, or of slashes alone, gets the handler of the resources for GET and none for POST.
-- The paths of the application are those below the root, and the sessions are started.
pub app_start_routes :
    (strtoul : Bytes → ℕ × Bytes) (opts : List (ℕ × Bytes)) (junk : Junk Handler) (e : Engine)
    (root_path : Bytes) (timeout : ℕ)
    → app_options strtoul opts (none, 0) ≡ (some root_path, timeout)
    → (s : Store Handler) × (app_start strtoul opts junk e (http_init_url_paths junk)
        ≡ some (paths_from root_path, (http_session_engine_start e 10 timeout).1, some s))
      × ((p : Bytes)
          → (answer s p Method.get ≡ some (some (on_get (take_segment (skip_slashes p)))))
            × (answer s p Method.post ≡ some (on_post (take_segment (skip_slashes p)))))
unfolding app_start
app_start_routes strtoul opts junk e root_path timeout h =
    (app_tree junk, simp (app_start, h, registered junk), answers junk)
