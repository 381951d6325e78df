-- ===== src/Files/Chosen.antt =====
-- The payments of a file, as rows that are chosen, ordered and joined with their merchant: the
-- queries of the API's nacha-files/nacha-files.service.ts.
use achflow.Prelude.{
  ltb, ℕ, ◌≡◌, refl, Bool, true, false, some, List, [], ◌∷◌, map, select, find, update, length,
  arith, Bool-cases, inl, inr, All,
}
use achflow.Schema.{Db, Payment, Merchant, has_id, find_merchant}
use achflow.Schema.Ids.{Below, find-lt}
use achflow.Nacha.Generator.{insert, by_id}
use achflow.Files.Agreement.{of_company}
use achflow.Files.Downloads.{with_merchants}

-- What holds of a row that its id finds holds of every row.
pub every_row :
    {P : Payment → Type 0} (n : ℕ) (ps : List Payment)
    → Below Payment.id n ps
    → ((p : Payment) → find (has_id p.id) ps ≡ some p → P p)
    → All P ps
unfolding find
every_row n [] b k = tt
every_row n (x ∷ xs) b k = (
  k x (ground arith),
  every_row x.id xs b.1
      (λ p e. k p (ground (arith, e, find-lt Payment.id (has_id p.id) x.id xs p b.1 e))),
)

pub by_id-map :
    (g : Payment → Payment) (ps : List Payment)
    → ((p : Payment) → (g p).id ≡ p.id)
    → by_id (map g ps) ≡ map g (by_id ps)
unfolding by_id insert
by_id-map g [] k = refl
by_id-map g (p ∷ ps) k = rw (by_id-map g ps k) (inserted (by_id ps))
  where
    inserted : (qs : List Payment) → insert (g p) (map g qs) ≡ map g (insert p qs)
    inserted [] = refl
    inserted (q ∷ qs) = ground (arith, k p, k q, inserted qs)

-- What is selected after an update, where the test then is what chose the rows.
pub select-update :
    (q c d : Payment → Bool) (g : Payment → Payment) (ps : List Payment)
    → All (λ p. d p ≡ c p) ps
    → All (λ p. q p ≡ false) ps
    → ((p : Payment) → c p ≡ true → q (g p) ≡ true)
    → select q (update d g ps) ≡ map g (select c ps)
unfolding select update
select-update q c d g [] same others chosen = refl
select-update q c d g (p ∷ ps) same others chosen =
    ground (arith, same.0, others.0, chosen p, select-update q c d g ps same.1 others.1 chosen)

module _ (P : Payment → Type 0) where
  All-insert : (p : Payment) (ps : List Payment) → P p → All P ps → All P (insert p ps)
  unfolding insert
  All-insert p [] x a = (x, tt)
  All-insert p (q ∷ ps) x a = elim (Bool-cases (ltb p.id q.id)) [
    | inl less ↦ rw less (x, a)
    | inr more ↦ rw more (a.0, All-insert p ps x a.1)
  ]

  pub All-by_id : (ps : List Payment) → All P ps → All P (by_id ps)
  unfolding by_id
  All-by_id [] a = tt
  All-by_id (p ∷ ps) a = All-insert p (by_id ps) a.0 (All-by_id ps a.1)

  pub All-select :
      (q : Payment → Bool) (ps : List Payment)
      → ((p : Payment) → q p ≡ true → P p)
      → All P (select q ps)
  unfolding select
  All-select q [] k = tt
  All-select q (p ∷ ps) k = elim (Bool-cases (q p)) [
    | inl e ↦ rw e (k p e, All-select q ps k)
    | inr e ↦ rw e (All-select q ps k)
  ]

pub included :
    (company : Merchant) (g : Payment → Payment) (db : Db) (ps : List Payment)
    → All (λ p. find_merchant (g p).merchant_id db ≡ some company) ps
    → with_merchants db (map g ps) ≡ some (of_company company g ps)
unfolding with_merchants
included company g db [] a = refl
included company g db (p ∷ ps) a = ground (arith, a.0, included company g db ps a.1)

pub length-of_company :
    (company : Merchant) (g : Payment → Payment) (ps : List Payment)
    → length (of_company company g ps) ≡ length ps
length-of_company company g [] = refl
length-of_company company g (p ∷ ps) = omega (arith, length-of_company company g ps)
