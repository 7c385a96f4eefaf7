-- ===== src/Core/Tests.antt =====
-- The traversal of pages at concrete inputs, and the theorem about it applied there.
use edx_ecommerce.Base.{ℕ, ◌≡◌, refl, Option, none, some, List, [], ◌∷◌, if◌then◌else◌, ◌==◌, arith}
use edx_ecommerce.Base.Action.{Result, ok, raised, timeout}
use edx_ecommerce.Core.Pages.{
  Page, deprecated_traverse_pagination, Chain, deprecated_traverse_pagination-all_results,
}

abbrev page : List ℕ → Option ℕ → Page ℕ
page results next = record { results = results; next = next }

-- The page 3 has no next page, and the page 4 is its own next page.
abbrev get : ℕ → Result (Page ℕ)
get q =
    if q == 2
    then ok (page (30 ∷ []) (some 3))
    else if q == 3
    then ok (page (40 ∷ 41 ∷ []) none)
    else if q == 4
    then ok (page [] (some 4))
    else raised timeout

endless : deprecated_traverse_pagination get 9 (page (10 ∷ []) (some 4)) ≡ none
unfolding deprecated_traverse_pagination
endless = refl

deprecated_traverse_pagination-all_results_example :
    deprecated_traverse_pagination get 4 (page (10 ∷ 20 ∷ []) (some 2))
    ≡ some (ok (10 ∷ 20 ∷ 30 ∷ 40 ∷ 41 ∷ []))
deprecated_traverse_pagination-all_results_example =
    deprecated_traverse_pagination-all_results get (page (10 ∷ 20 ∷ []) (some 2))
      (page (30 ∷ []) (some 3) ∷ page (40 ∷ 41 ∷ []) none ∷ []) none
      (Chain.goes 2 (page (30 ∷ []) (some 3)) (page (40 ∷ 41 ∷ []) none ∷ []) none refl
        (Chain.goes 3 (page (40 ∷ 41 ∷ []) none) [] none refl Chain.ends))
      4 (omega arith)
