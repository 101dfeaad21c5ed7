-- ===== src/Routing/Skip.antt =====
-- utils/routing.c: what routes_parse makes of a file with malformed lines, and without memory.
use mathlib.Core.List.{append_assoc, append-nil}
use foxtails.Base.{
  ℕ, ◌≤◌, ◌<◌, Bool, true, false, Option, none, some, List, [], ◌∷◌, ◌++◌, length, take, ◌==◌,
  if◌then◌else◌, ◌≡◌, refl, sym, ap, ◌∙◌, subst, arith, take_all, take-length-append, length-append,
  ==_iff, Bool-cases, inl, inr,
}
use foxtails.Base.Bytes.{Bytes, full_lines}
use foxtails.Routing.{Route, append_route, parse_route_line, add_line, add_lines, routes_parse}

-- The route of a line: none for an empty line, a comment, or a malformed line
abbrev pub read_line : Bytes → Option Route
read_line [] = none
read_line (c ∷ cs) = if c == b'#' then none else parse_route_line (c ∷ cs)

abbrev pub with_route : Option Route → List Route → List Route
with_route none routes = routes
with_route (some route) routes = route ∷ routes

-- The routes of those lines that have one
abbrev pub good_routes : List Bytes → List Route
good_routes [] = []
good_routes (line ∷ lines) = with_route (read_line line) (good_routes lines)

abbrev stored : (ℕ → Bool) → List Route → Option Route → List Route
stored memory routes none = routes
stored memory routes (some route) = append_route memory routes route

add_line-stored :
    (memory : ℕ → Bool) (routes : List Route) (line : Bytes)
    → add_line memory routes line ≡ stored memory routes (read_line line)
unfolding add_line
add_line-stored memory routes [] = refl
add_line-stored memory routes (c ∷ cs) = elim (Bool-cases (c == b'#')) [
  | inl comment ↦ rw comment refl
  | inr other ↦ rw other (go (parse_route_line (c ∷ cs)))
]
  where
    go :
        (o : Option Route)
        → elim o [ none ↦ routes | some route ↦ append_route memory routes route ]
          ≡ stored memory routes o
    go none = refl
    go (some route) = refl

stored_all :
    (routes : List Route) (o : Option Route) (rest : List Route)
    → stored (λ _. true) routes o ++ rest ≡ routes ++ with_route o rest
unfolding append_route
stored_all routes none rest = refl
stored_all routes (some route) rest = append_assoc routes (route ∷ []) rest

add_lines_all :
    (routes : List Route) (lines : List Bytes)
    → add_lines (λ _. true) routes lines ≡ routes ++ good_routes lines
unfolding add_lines
add_lines_all routes [] = sym (append-nil routes)
add_lines_all routes (line ∷ lines) =
    ap (λ k. add_lines (λ _. true) k lines) (add_line-stored (λ _. true) routes line)
    ∙ add_lines_all (stored (λ _. true) routes (read_line line)) lines
    ∙ stored_all routes (read_line line) (good_routes lines)

true-ne-false : true ≡ false → ⊥
true-ne-false e = absurd (cc)

-- The table that fits into memory for `k` routes
module _ (memory : ℕ → Bool) (k : ℕ) (enough : (j : ℕ) → j < k → memory j ≡ true)
    (full : memory k ≡ false) where
  below :
      (routes : List Route) → length routes ≤ k → memory (length routes) ≡ true → length routes < k
  below routes h can = elim (Bool-cases (length routes == k)) [
    | inl e ↦ absurd (true-ne-false (sym can ∙ ap memory ((==_iff (length routes) k).0 e) ∙ full))
    | inr e ↦ ground arith
  ]

  reached :
      (routes : List Route) → length routes ≤ k → memory (length routes) ≡ false → length routes ≡ k
  reached routes h cannot = elim (Bool-cases (length routes == k)) [
    | inl e ↦ (==_iff (length routes) k).0 e
    | inr e ↦ absurd (true-ne-false (sym (enough (length routes) (ground arith)) ∙ cannot))
  ]

  first_of : (routes rest : List Route) → length routes ≡ k → take k (routes ++ rest) ≡ routes
  first_of routes rest e =
      subst (λ n. take n (routes ++ rest) ≡ routes) e (take-length-append routes rest)

  stored_some :
      (routes : List Route) (o : Option Route) (rest : List Route)
      → length routes ≤ k
      → (length (stored memory routes o) ≤ k)
        × (take k (stored memory routes o ++ rest) ≡ take k (routes ++ with_route o rest))
  unfolding append_route
  stored_some routes none rest h = (h, refl)
  stored_some routes (some route) rest h = elim (Bool-cases (memory (length routes))) [
    | inl can ↦ rw can (
      omega (arith, below routes h can, length-append routes (route ∷ [])),
      ap (take k) (append_assoc routes (route ∷ []) rest),
    )
    | inr cannot ↦
        let at_k = reached routes h cannot in
        rw cannot (h, first_of routes rest at_k ∙ sym (first_of routes (route ∷ rest) at_k))
  ]

  add_lines_some :
      (routes : List Route) (lines : List Bytes)
      → length routes ≤ k
      → (take k (add_lines memory routes lines) ≡ take k (routes ++ good_routes lines))
        × (length (add_lines memory routes lines) ≤ k)
  unfolding add_lines
  add_lines_some routes [] h = (ap (take k) (sym (append-nil routes)), h)
  add_lines_some routes (line ∷ lines) h =
      let step = stored_some routes (read_line line) (good_routes lines) h in
      let rest = add_lines_some (stored memory routes (read_line line)) lines step.0 in
      subst
        (λ rs.
          (take k (add_lines memory rs lines) ≡ take k (routes ++ good_routes (line ∷ lines)))
          × (length (add_lines memory rs lines) ≤ k))
        (sym (add_line-stored memory routes line)) (rest.0 ∙ step.1, rest.1)

-- routes_parse stores the routes of the lines that have one, in their order, whatever malformed
-- lines, comments and empty lines stand between them. If the table can be enlarged up to `k` routes
-- and not to one more, it stores the first `k` of them.
pub routes_parse-good_routes :
    (content : Bytes) (memory : ℕ → Bool) (k : ℕ)
    → ((j : ℕ) → j < k → memory j ≡ true)
    → memory k ≡ false
    → (routes_parse (λ _. true) (some content) ≡ good_routes (full_lines content))
      × (routes_parse memory (some content) ≡ take k (good_routes (full_lines content)))
unfolding routes_parse
routes_parse-good_routes content memory k enough full =
    let limited = add_lines_some memory k enough full [] (full_lines content) (omega arith) in
    (
      add_lines_all [] (full_lines content),
      sym (take_all (add_lines memory [] (full_lines content)) k limited.1) ∙ limited.0,
    )
