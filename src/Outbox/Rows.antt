-- ===== src/Outbox/Rows.antt =====
-- Facts about every row of a table, and the row of an id.
use achflow.Prelude.{
  ℕ, suc, zero, ◌≡◌, refl, Bool, true, some, List, [], ◌∷◌, take, select, All, find, update, arith,
  Bool-cases, inl, inr, ◌==◌, ==_iff, eq_refl,
}
use achflow.Schema.{OutboxEvent}
use achflow.Schema.Ids.{Below, find-lt}
use achflow.Outbox.Repository.{insert, in_order, is_among, earlier}

module _ {A : Type 0} (P : A → Type 0) where
  pub All-mono : (Q : A → Type 0) (xs : List A) → ((x : A) → P x → Q x) → All P xs → All Q xs
  All-mono Q [] f a = tt
  All-mono Q (x ∷ xs) f a = (f x a.0, All-mono Q xs f a.1)

  pub All-select : (p : A → Bool) (xs : List A) → All P xs → All P (select p xs)
  unfolding select
  All-select p [] a = tt
  All-select p (x ∷ xs) a = elim (Bool-cases (p x)) [
    | inl b ↦ rw b (a.0, All-select p xs a.1)
    | inr b ↦ rw b (All-select p xs a.1)
  ]

  pub All-take : (n : ℕ) (xs : List A) → All P xs → All P (take n xs)
  All-take zero xs a = tt
  All-take (suc n) [] a = tt
  All-take (suc n) (x ∷ xs) a = (a.0, All-take n xs a.1)

  -- An update that keeps a fact about the rows that it changes keeps it about every row.
  pub All-update :
      (p : A → Bool) (f : A → A) (Q : A → Type 0) (xs : List A)
      → ((x : A) → Q x → P x → p x ≡ true → P (f x))
      → All Q xs
      → All P xs
      → All P (update p f xs)
  unfolding update
  All-update p f Q [] k q a = tt
  All-update p f Q (x ∷ xs) k q a = elim (Bool-cases (p x)) [
    | inl b ↦ rw b (k x q.0 a.0 b, All-update p f Q xs k q.1 a.1)
    | inr b ↦ rw b (a.0, All-update p f Q xs k q.1 a.1)
  ]

pub select-All : {A : Type 0} (p : A → Bool) (xs : List A) → All (λ x. p x ≡ true) (select p xs)
unfolding select
select-All p [] = tt
select-All p (x ∷ xs) = elim (Bool-cases (p x)) [
  | inl b ↦ rw b (b, select-All p xs)
  | inr b ↦ rw b (select-All p xs)
]

module _ (P : OutboxEvent → Type 0) where
  All-insert : (e : OutboxEvent) (es : List OutboxEvent) → P e → All P es → All P (insert e es)
  unfolding insert
  All-insert e [] h a = (h, tt)
  All-insert e (x ∷ es) h a = elim (Bool-cases (earlier e x)) [
    | inl b ↦ rw b (h, a)
    | inr b ↦ rw b (a.0, All-insert e es h a.1)
  ]

  pub All-in_order : (es : List OutboxEvent) → All P es → All P (in_order es)
  unfolding in_order
  All-in_order [] a = tt
  All-in_order (e ∷ es) a = All-insert e (in_order es) a.0 (All-in_order es a.1)

  -- An event that is among others has the id of one of them.
  pub among :
      (es : List OutboxEvent) (e : OutboxEvent)
      → All P es
      → is_among es e ≡ true
      → (x : OutboxEvent) × P x × (x.id ≡ e.id)
  unfolding is_among
  among [] e a h = cc
  among (x ∷ es) e a h = elim (Bool-cases (x.id == e.id)) [
    | inl b ↦ (x, a.0, (==_iff x.id e.id).0 b)
    | inr b ↦ among es e a.1 (ground (arith, b))
  ]

-- The row that has the id of a row of the table is that row.
abbrev pub IsRowOf : List OutboxEvent → OutboxEvent → Type 0
IsRowOf rows e = find (λ x. x.id == e.id) rows ≡ some e

pub rows-IsRowOf :
    (n : ℕ) (rows : List OutboxEvent) → Below OutboxEvent.id n rows → All (IsRowOf rows) rows
unfolding find
rows-IsRowOf n [] b = tt
rows-IsRowOf n (x ∷ rows) b = (
  rw (eq_refl x.id) refl,
  All-mono (IsRowOf rows) (IsRowOf (x ∷ rows)) rows
      (λ e h. ground (arith, h, find-lt OutboxEvent.id (λ y. y.id == e.id) x.id rows e b.1 h))
      (rows-IsRowOf x.id rows b.1),
)
