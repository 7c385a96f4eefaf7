-- ===== src/Core/Pages.antt =====
-- `deprecated_traverse_pagination` of ecommerce/core/utils.py.
use edx_ecommerce.Base.{
  ℕ, zero, suc, ◌+◌, ◌≤◌, ◌≡◌, ap, sym, ◌∙◌, Option, none, some, List, [], ◌∷◌, ◌++◌, length, arith,
}
use mathlib.Core.List.{append_assoc, append-nil}
use edx_ecommerce.Base.Action.{Result, ok, raised, Exc}

-- A page of an answer: its results, which are empty when the answer has none, and the query of the
-- next page, where a link that is missing or empty is `none`.
pub record Page (A : Type 0) : Type 0 where
  pub results : List A
  pub next : Option ℕ

module _ {A : Type 0} (get : ℕ → Result (Page A)) where
  abbrev pub then_page :
      Result (Page A) → (Page A → Option (Result (List A))) → Option (Result (List A))
  then_page (ok p) f = f p
  then_page (raised e) f = some (raised e)

  abbrev pub then_next :
      Option ℕ → List A → (ℕ → Option (Result (List A))) → Option (Result (List A))
  then_next none results f = some (ok results)
  then_next (some q) results f = f q

  -- The `while` loop on fuel; `none` is a loop that has not ended. `get` is the request of a page by
  -- its query, with `raise_for_status` and `json`.
  unfoldable pub traverse :
      (fuel : ℕ) → (next_page : Option ℕ) → (results : List A) → Option (Result (List A))
  traverse zero next_page results = then_next next_page results (λ q. none)
  traverse (suc n) next_page results =
      then_next next_page results
        (λ q. then_page (get q) (λ p. traverse n p.next (results ++ p.results)))

  unfoldable pub deprecated_traverse_pagination : (fuel : ℕ) → Page A → Option (Result (List A))
  unfolding traverse
  deprecated_traverse_pagination fuel response = traverse fuel response.next response.results

  -- The pages behind a link, and what the last request raises, if one does.
  pub data Chain : Option ℕ → List (Page A) → Option Exc → Type 0 where
    ends : Chain none [] none
    fails : (q : ℕ) (e : Exc) → get q ≡ raised e → Chain (some q) [] (some e)
    goes :
        (q : ℕ) (p : Page A) (ps : List (Page A)) (end : Option Exc)
        → get q ≡ ok p
        → Chain p.next ps end
        → Chain (some q) (p ∷ ps) end

  abbrev pub all_results : List (Page A) → List A
  all_results [] = []
  all_results (p ∷ ps) = p.results ++ all_results ps

  abbrev pub outcome : Option Exc → List A → Result (List A)
  outcome none results = ok results
  outcome (some e) results = raised e

  traverse-Chain :
      {next : Option ℕ} {ps : List (Page A)} {end : Option Exc}
      → Chain next ps end
      → (fuel : ℕ) (results : List A) → length ps + 1 ≤ fuel
      → traverse fuel next results ≡ some (outcome end (results ++ all_results ps))
  unfolding traverse
  traverse-Chain ends zero results h = ap (λ r. some (ok r)) (sym (append-nil results))
  traverse-Chain ends (suc n) results h = ap (λ r. some (ok r)) (sym (append-nil results))
  traverse-Chain (fails q e g) zero results h = ground (arith, h)
  traverse-Chain (fails q e g) (suc n) results h =
      ap (λ r. then_page r (λ p. traverse n p.next (results ++ p.results))) g
  traverse-Chain (goes q p ps end g c) zero results h = ground (arith, h)
  traverse-Chain (goes q p ps end g c) (suc n) results h =
      ap (λ r. then_page r (λ x. traverse n x.next (results ++ x.results))) g
      ∙ traverse-Chain c n (results ++ p.results) (omega (arith, h))
      ∙ ap (λ r. some (outcome end r)) (append_assoc results p.results (all_results ps))

  -- If the links of an answer lead through finitely many pages, the loop ends, after as many rounds
  -- as there are such pages at most, and once more for the request that fails: it returns the results
  -- of all the pages in their order, or raises what the last request raises.
  pub deprecated_traverse_pagination-all_results :
      (response : Page A) (ps : List (Page A)) (end : Option Exc)
      → Chain response.next ps end
      → (fuel : ℕ) → length ps + 1 ≤ fuel
      → deprecated_traverse_pagination fuel response
        ≡ some (outcome end (response.results ++ all_results ps))
  unfolding deprecated_traverse_pagination
  deprecated_traverse_pagination-all_results response ps end c fuel h =
      traverse-Chain c fuel response.results h
