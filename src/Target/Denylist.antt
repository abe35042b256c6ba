-- ===== src/Target/Denylist.antt =====
-- `Denied` (internal/target/target.go): ways around the denylist that are closed.
use pyck_debug_worker.Prelude.{[], ◌∷◌, ◌++◌, arith, ◌≡◌, refl, ap, ◌∙◌}
use pyck_debug_worker.Prelude.Text.{Text}
use pyck_debug_worker.Strings.{before, before-append, lower, to_lower}
use pyck_debug_worker.Target.{denied, denied_name, denied_route, or_route}

to_lower-append : (s t : Text) → to_lower (s ++ t) ≡ to_lower s ++ to_lower t
unfolding to_lower
to_lower-append [] t = refl
to_lower-append (c ∷ s) t = ap (λ u. lower c ∷ u) (to_lower-append s t)

to_lower_twice : (s : Text) → to_lower (to_lower s) ≡ to_lower s
unfolding to_lower
to_lower_twice [] = refl
to_lower_twice (c ∷ s) = ground (arith, to_lower_twice s)

before_port : (s port : Text) → before b':' (to_lower (s ++ b':' ∷ port)) ≡ before b':' (to_lower s)
unfolding to_lower
before_port s port =
    ap (before b':') (to_lower-append s (b':' ∷ port))
    ∙ before-append b':' (to_lower s) (to_lower port)

before_query :
    (path query : Text)
    → before b'?' (to_lower (path ++ b'?' ∷ query)) ≡ before b'?' (to_lower path)
unfolding to_lower
before_query path query =
    ap (before b'?') (to_lower-append path (b'?' ∷ query))
    ∙ before-append b'?' (to_lower path) (to_lower query)

same_answer :
    (name name' route route' : Text)
    → name ≡ name'
    → route ≡ route'
    → or_route (denied_name name) (denied_route route)
      ≡ or_route (denied_name name') (denied_route route')
same_answer name name' route route' p q =
    ap (λ n. or_route (denied_name n) (denied_route route)) p
    ∙ ap (λ r. or_route (denied_name name') (denied_route r)) q

-- A port behind the host, a query behind the path and the case of the letters of both make no
-- difference: `Denied` answers with the same reason, or none, as for the bare lower-case host and
-- path.
pub denied-evasion :
    (host port path query : Text)
    → (denied (host ++ b':' ∷ port) (path ++ b'?' ∷ query) ≡ denied host path)
      × (denied (to_lower host) (to_lower path) ≡ denied host path)
unfolding denied
denied-evasion host port path query = (
  same_answer (before b':' (to_lower (host ++ b':' ∷ port))) (before b':' (to_lower host))
      (before b'?' (to_lower (path ++ b'?' ∷ query))) (before b'?' (to_lower path))
      (before_port host port) (before_query path query),
  same_answer (before b':' (to_lower (to_lower host))) (before b':' (to_lower host))
      (before b'?' (to_lower (to_lower path))) (before b'?' (to_lower path))
      (ap (before b':') (to_lower_twice host)) (ap (before b'?') (to_lower_twice path)),
)
