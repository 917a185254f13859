-- ===== src/Products/Filters/Placeholders.antt =====
-- The placeholders of the dynamic search query point at their values.
use market_place.Base.{
  ℕ, zero, suc, ◌+◌, ◌≡◌, refl, ap, ◌∙◌, String, Option, none, some, List, [], ◌∷◌, arith, length,
}
use market_place.Products.Filters.{
  Param, Clause, FilterDto, Filters, push, push_filter, push_text, push_number,
  build_search_filters, limit_index, offset_index,
}

-- first, first + 1, …: `n` numbers
unfoldable pub numbers_from : ℕ → ℕ → List ℕ
numbers_from first zero = []
numbers_from first (suc n) = first ∷ numbers_from (first + 1) n

unfoldable pub placeholders : List Clause → List ℕ
placeholders [] = []
placeholders (c ∷ cs) = c.placeholder ∷ placeholders cs

-- one clause for each parameter, numbered in order after the leading ones
abbrev pub Aligned : ℕ → Filters → Type 0
Aligned base f = placeholders f.clauses ≡ numbers_from (base + 1) (length f.params)

length-push : {A : Type 0} (a : A) (xs : List A) → length (push a xs) ≡ length xs + 1
unfolding push
length-push a [] = omega arith
length-push a (x ∷ xs) = omega (arith, length-push a xs)

placeholders-push :
    (c : Clause) (cs : List Clause)
    → placeholders (push c cs) ≡ push c.placeholder (placeholders cs)
unfolding placeholders push
placeholders-push c [] = refl
placeholders-push c (d ∷ cs) = ap (λ r. d.placeholder ∷ r) (placeholders-push c cs)

push-numbers_from :
    (first n : ℕ) → push (first + n) (numbers_from first n) ≡ numbers_from first (suc n)
unfolding numbers_from push
push-numbers_from first zero = rw (plus_zero first) refl
  where
    plus_zero : (n : ℕ) → n + 0 ≡ n
    plus_zero n = omega arith
push-numbers_from first (suc n) =
    ap (λ r. first ∷ r)
      (ap (λ k. push k (numbers_from (first + 1) n)) (shift first n)
        ∙ push-numbers_from (first + 1) n)
  where
    shift : (a b : ℕ) → a + suc b ≡ (a + 1) + b
    shift a b = omega arith

push_filter-Aligned :
    (base : ℕ) (before after : String) (v : Param) (f : Filters)
    → Aligned base f
    → Aligned base (push_filter base before after v f)
unfolding push_filter
push_filter-Aligned base before after v f h =
    let grown = length-push v f.params in
    placeholders-push _ f.clauses
    ∙ ap (push (base + length (push v f.params))) h
    ∙ rw (grown, shift base (length f.params), one (length f.params))
        (push-numbers_from (base + 1) (length f.params))
  where
    shift : (a b : ℕ) → a + (b + 1) ≡ (a + 1) + b
    shift a b = omega arith

    one : (a : ℕ) → a + 1 ≡ suc a
    one a = omega arith

push_text-Aligned :
    (base : ℕ) (before after : String) (v : Option String) (f : Filters)
    → Aligned base f
    → Aligned base (push_text base before after v f)
unfolding push_text
push_text-Aligned base before after none f h = h
push_text-Aligned base before after (some s) f h =
    push_filter-Aligned base before after (Param.text s) f h

push_number-Aligned :
    (base : ℕ) (before after : String) (v : Option ℕ) (f : Filters)
    → Aligned base f
    → Aligned base (push_number base before after v f)
unfolding push_number
push_number-Aligned base before after none f h = h
push_number-Aligned base before after (some n) f h =
    push_filter-Aligned base before after (Param.number n) f h

search_filters-Aligned :
    (dto : FilterDto) (base : ℕ) (prefix : String)
    → Aligned base (build_search_filters dto base prefix)
unfolding build_search_filters numbers_from placeholders
search_filters-Aligned dto base prefix = push_text-Aligned base _ _ _ _ (
    push_number-Aligned base _ _ _ _ (
      push_text-Aligned base _ _ _ _ (
        push_text-Aligned base _ _ _ _ (
          push_text-Aligned base _ _ _ _ (
            push_text-Aligned base _ _ _ _ (
              push_text-Aligned base _ _ _ _ (
                push_number-Aligned base _ _ _ _ (
                  push_number-Aligned base _ _ _ _ (
                    push_text-Aligned base _ _ _ _ (
                      push_text-Aligned base _ _ _ (record { clauses = []; params = [] })
                        refl))))))))))

push_two :
    (base n : ℕ)
    → push (base + n + 2) (push (base + n + 1) (numbers_from (base + 1) n))
      ≡ numbers_from (base + 1) (suc (suc n))
push_two base n =
    rw (one base n, two base n)
      (ap (push (base + 1 + suc n)) (push-numbers_from (base + 1) n)
        ∙ push-numbers_from (base + 1) (suc n))
  where
    one : (a b : ℕ) → a + b + 1 ≡ a + 1 + b
    one a b = omega arith

    two : (a b : ℕ) → a + b + 2 ≡ a + 1 + suc b
    two a b = omega arith

-- Whatever filters a search has, its placeholders are, in order, the numbers that follow the leading
-- parameters, one for each parameter; LIMIT and OFFSET have the two numbers after them.
pub build_search_filters-Aligned :
    (dto : FilterDto) (base : ℕ) (prefix : String)
    → let f = build_search_filters dto base prefix in
      (placeholders f.clauses ≡ numbers_from (base + 1) (length f.params))
      × (push
            (offset_index base f.params)
            (push (limit_index base f.params) (placeholders f.clauses))
          ≡ numbers_from (base + 1) (suc (suc (length f.params))))
unfolding limit_index offset_index
build_search_filters-Aligned dto base prefix =
    let h = search_filters-Aligned dto base prefix in
    let params = (build_search_filters dto base prefix).params in
    (
      h,
      ap (λ ns. push (base + length params + 2) (push (base + length params + 1) ns)) h
          ∙ push_two base (length params),
    )
