-- ===== src/Listing/Pages.antt =====
-- The pages of the listings: `skip: (page - 1) * pageSize` and `take: pageSize` of the queries, `slice`
-- of the ledger, and `Math.ceil(total / pageSize)`.
use achflow.Prelude.{
  ℕ, zero, suc, ◌+◌, ◌-◌, ◌*◌, ◌/◌, ◌≤◌, ◌<◌, ◌≡◌, ◌∙◌, refl, List, [], ◌∷◌, ◌++◌, length, take,
  arith,
}

module _ {A : Type 0} where
  unfoldable pub skip : ℕ → List A → List A
  skip zero xs = xs
  skip (suc n) [] = []
  skip (suc n) (x ∷ xs) = skip n xs

  -- The rows of a page, from 1.
  unfoldable pub page_rows : (page page_size : ℕ) → List A → List A
  unfolding skip
  page_rows page page_size xs = take page_size (skip ((page - 1) * page_size) xs)

  -- `sortedRows.slice((page - 1) * pageSize, page * pageSize)`
  unfoldable pub slice : (from to : ℕ) → List A → List A
  unfolding skip
  slice from to xs = take (to - from) (skip from xs)

abbrev pub total_pages : (total page_size : ℕ) → ℕ
total_pages total page_size = (total + (page_size - 1)) / page_size

module _ {A : Type 0} where
  -- The pages up to one, one after another.
  unfoldable first_pages : (rows : ℕ → List A) → (pages : ℕ) → List A
  first_pages rows zero = []
  first_pages rows (suc page) = first_pages rows page ++ rows (suc page)

  take_none : (n : ℕ) → take {A = A} n [] ≡ []
  take_none zero = refl
  take_none (suc n) = refl

  take-skip : (m n : ℕ) (xs : List A) → take m xs ++ take n (skip m xs) ≡ take (m + n) xs
  unfolding skip
  take-skip zero n xs = let e : 0 + n ≡ n = omega arith in rw e refl
  take-skip (suc m) n [] = rw (take_none n, take_none (suc m + n)) refl
  take-skip (suc m) n (x ∷ xs) =
      let e : suc m + n ≡ suc (m + n) = omega arith in rw (e, take-skip m n xs) refl

  take_all : (n : ℕ) (xs : List A) → length xs ≤ n → take n xs ≡ xs
  take_all zero [] h = refl
  take_all (suc n) [] h = refl
  take_all zero (x ∷ xs) h = absurd (omega (arith, h))
  take_all (suc n) (x ∷ xs) h = rw (take_all n xs (omega (arith, h))) refl

  first_pages-take :
      (pages page_size : ℕ) (xs : List A)
      → first_pages (λ page. page_rows page page_size xs) pages ≡ take (pages * page_size) xs
  unfolding first_pages page_rows
  first_pages-take zero page_size xs = let e : 0 * page_size ≡ 0 = omega arith in rw e refl
  first_pages-take (suc page) page_size xs =
      let before : suc page - 1 ≡ page = omega arith in
      let size : suc page * page_size ≡ page * page_size + page_size = omega arith in
      rw (before, size, first_pages-take page page_size xs)
        (take-skip (page * page_size) page_size xs)

  same_pages :
      (pages page_size : ℕ) (xs : List A)
      → first_pages (λ page. slice ((page - 1) * page_size) (page * page_size) xs) pages
        ≡ first_pages (λ page. page_rows page page_size xs) pages
  unfolding first_pages page_rows slice
  same_pages zero page_size xs = refl
  same_pages (suc page) page_size xs =
      let before : suc page - 1 ≡ page = omega arith in
      let size : suc page * page_size - page * page_size ≡ page_size = omega arith in
      rw (before, size, same_pages page page_size xs) refl

  -- All the pages of a listing, one after another, are its rows, both as the queries take them and as
  -- the ledger slices them.
  pages_complete :
      (page_size : ℕ) (xs : List A)
      → 0 < page_size
      → (first_pages (λ page. page_rows page page_size xs) (total_pages (length xs) page_size) ≡ xs)
        × (first_pages
              (λ page. slice ((page - 1) * page_size) (page * page_size) xs)
              (total_pages (length xs) page_size)
            ≡ xs)
  pages_complete page_size xs h = (whole, same_pages pages page_size xs ∙ whole)
    where
      pages : ℕ
      pages = total_pages (length xs) page_size

      enough : (n : ℕ) → n ≤ total_pages n page_size * page_size
      enough n = omega (arith, h)

      whole : first_pages (λ page. page_rows page page_size xs) pages ≡ xs
      whole =
          rw (first_pages-take pages page_size xs)
            (take_all (pages * page_size) xs (enough (length xs)))
