-- ===== src/Mixin/Lines.antt =====
-- The lines that an offer without a range discounts: ecommerce/extensions/offer/mixins.py and
-- `get_applicable_lines` of ecommerce/programs/conditions.py.
use edx_ecommerce.Base.{
  ℕ, ◌+◌, ◌-◌, ◌≤◌, Bool, true, false, not, ◌&&◌, Option, none, some, List, [], ◌∷◌, ◌++◌, ◌==◌,
  ltb, leb, keep, length, sum_of, if◌then◌else◌, arith,
}
use edx_ecommerce.Base.Action.{Result, ok, raised}
use edx_ecommerce.Program.{Lookups, Program, Course, member}
use edx_ecommerce.Program.Condition.{course_skus, get_program}

-- A basket line: `price` is Oscar's unit price for the offer, which may be 0.
pub record Line : Type 0 where
  pub id : ℕ
  pub has_stockrecord : Bool
  pub is_discountable : Bool
  pub sku : ℕ
  pub price : ℕ
  pub quantity_without_discount : ℕ

-- `ConditionWithoutRangeMixin.can_apply_condition`
abbrev pub can_apply_condition : Line → Bool
can_apply_condition l = l.has_stockrecord && l.is_discountable

unfoldable pub skus_of_courses : (types : List ℕ) → List Course → List ℕ
unfolding course_skus
skus_of_courses types [] = []
skus_of_courses types (c ∷ cs) = course_skus types c ++ skus_of_courses types cs

abbrev pub skus_of : Option Program → List ℕ
skus_of none = []
skus_of (some p) = skus_of_courses p.applicable_seat_types p.courses

abbrev pub program_skus : Result (Option Program) → Result (List ℕ)
program_skus (ok p) = ok (skus_of p)
program_skus (raised e) = raised e

-- `_get_applicable_skus`
unfoldable pub get_applicable_skus : Lookups → Result (List ℕ)
unfolding get_program skus_of_courses
get_applicable_skus v = program_skus (get_program v)

-- Python's `sorted` by the price, which is stable.
abbrev pub is_before : (reverse : Bool) → (price other : ℕ) → Bool
is_before true p q = leb q p
is_before false p q = leb p q

unfoldable pub insert : (reverse : Bool) → Line → List Line → List Line
insert reverse l [] = l ∷ []
insert reverse l (m ∷ ms) =
    let rest = insert reverse l ms in
    if is_before reverse l.price m.price then l ∷ m ∷ ms else m ∷ rest

unfoldable pub sorted : (reverse : Bool) → List Line → List Line
unfolding insert
sorted reverse [] = []
sorted reverse (l ∷ ls) = insert reverse l (sorted reverse ls)

-- The SKUs are asked for line by line; a line without a stock record is not asked for, and a line
-- with the price 0 is left out.
unfoldable pub applicable : Result (List ℕ) → List Line → Result (List Line)
applicable skus [] = ok []
applicable skus (l ∷ ls) =
    let rest = applicable skus ls in
    if not l.has_stockrecord then rest else elim skus [
      | raised e ↦ raised e
      | ok known ↦ elim rest [
        | raised e ↦ raised e
        | ok ms ↦
            (if (member l.sku known && l.is_discountable) && not (l.price == 0)
              then ok (l ∷ ms)
              else ok ms)
      ]
    ]

abbrev pub sort_lines : (reverse : Bool) → Result (List Line) → Result (List Line)
sort_lines reverse (ok ls) = ok (sorted reverse ls)
sort_lines reverse (raised e) = raised e

-- `ProgramCourseRunSeatsCondition.get_applicable_lines`
unfoldable pub get_applicable_lines :
    Lookups → (most_expensive_first : Bool) → List Line → Result (List Line)
unfolding get_applicable_skus applicable sorted
get_applicable_lines v most_expensive_first ls =
    sort_lines most_expensive_first (applicable (get_applicable_skus v) ls)

abbrev pub discountable : Result (List Line) → Result (List Line)
discountable (ok ls) = ok (sorted false (keep (λ (l : Line). ltb 0 l.quantity_without_discount) ls))
discountable (raised e) = raised e

-- `BenefitWithoutRangeMixin.get_applicable_lines` with the program condition.
unfoldable pub benefit_lines : Lookups → List Line → Result (List Line)
unfolding get_applicable_lines
benefit_lines v ls = discountable (get_applicable_lines v false ls)

abbrev pub min : ℕ → ℕ → ℕ
min a b = if leb a b then a else b

-- Oscar's `consume`, by the quantity.
abbrev pub consume : ℕ → Line → Line
consume n l = record l { quantity_without_discount = l.quantity_without_discount - n }

-- `SingleItemConsumptionConditionMixin.consume_items` on the rows of the basket, by the ids of the
-- affected lines.
unfoldable pub consume_line : (id : ℕ) → List Line → List Line
consume_line id [] = []
consume_line id (l ∷ ls) =
    let rest = consume_line id ls in
    if l.id == id then consume (min l.quantity_without_discount 1) l ∷ ls else l ∷ rest

unfoldable pub consume_items : (affected : List ℕ) → List Line → List Line
unfolding consume_line
consume_items [] ls = ls
consume_items (id ∷ ids) ls = consume_items ids (consume_line id ls)

abbrev pub left : List Line → ℕ
left = sum_of (λ (l : Line). l.quantity_without_discount)

left-consume_line :
    (id : ℕ) (ls : List Line)
    → (left (consume_line id ls) ≤ left ls) × (left ls ≤ left (consume_line id ls) + 1)
unfolding consume_line
left-consume_line id [] = (omega arith, omega arith)
left-consume_line id (l ∷ ls) =
    let (a, b) = left-consume_line id ls in (ground (arith, a), ground (arith, b))

-- Each affected line takes at most one unit of the basket's quantities.
pub left-consume_items :
    (affected : List ℕ) (ls : List Line)
    → (left (consume_items affected ls) ≤ left ls)
      × (left ls ≤ left (consume_items affected ls) + length affected)
unfolding consume_items
left-consume_items [] ls = (omega arith, omega arith)
left-consume_items (id ∷ ids) ls =
    let (a, b) = left-consume_line id ls in
    let (c, d) = left-consume_items ids (consume_line id ls) in
    (omega (arith, a, c), omega (arith, b, d))
