-- ===== src/Outbox/Sorting.antt =====
-- The order of the worker's outbox: `ORDER BY` of outbox/outbox.repository.ts, as the list has it.
use achflow.Prelude.{
  ℕ, suc, zero, ◌≡◌, refl, true, List, [], ◌∷◌, length, take, All, arith, Bool-cases, inl, inr,
}
use achflow.Schema.{OutboxEvent}
use achflow.Outbox.Repository.{earlier, insert, in_order}

-- What is left of the queue after a claim.
unfoldable pub skip {ℓ} : {A : Type ℓ} → ℕ → List A → List A
skip zero xs = xs
skip (suc n) [] = []
skip (suc n) (x ∷ xs) = skip n xs

-- No event of the list is earlier than this one.
abbrev pub Leads : OutboxEvent → List OutboxEvent → Type 0
Leads e es = All (λ x. earlier e x ≡ true) es

abbrev pub Ordered : List OutboxEvent → Type 0
Ordered [] = Unit {0}
Ordered (e ∷ es) = Leads e es × Ordered es

Leads-trans :
    (a b : OutboxEvent) (es : List OutboxEvent) → earlier a b ≡ true → Leads b es → Leads a es
Leads-trans a b [] h l = tt
Leads-trans a b (x ∷ es) h l = (ground (arith, h, l.0), Leads-trans a b es h l.1)

insert-Leads :
    (a e : OutboxEvent) (es : List OutboxEvent)
    → earlier a e ≡ true
    → Leads a es
    → Leads a (insert e es)
unfolding insert
insert-Leads a e [] h l = (h, tt)
insert-Leads a e (x ∷ es) h l = elim (Bool-cases (earlier e x)) [
  | inl b ↦ rw b (h, l)
  | inr b ↦ rw b (l.0, insert-Leads a e es h l.1)
]

insert-Ordered : (e : OutboxEvent) (es : List OutboxEvent) → Ordered es → Ordered (insert e es)
unfolding insert
insert-Ordered e [] o = (tt, tt)
insert-Ordered e (x ∷ es) o = elim (Bool-cases (earlier e x)) [
  | inl b ↦ rw b ((b, Leads-trans e x es b o.0), o)
  | inr b ↦ rw b (insert-Leads x e es (ground (arith, b)) o.0, insert-Ordered e es o.1)
]

pub in_order-Ordered : (es : List OutboxEvent) → Ordered (in_order es)
unfolding in_order
in_order-Ordered [] = tt
in_order-Ordered (e ∷ es) = insert-Ordered e (in_order es) (in_order-Ordered es)

skip-Leads : (n : ℕ) (e : OutboxEvent) (es : List OutboxEvent) → Leads e es → Leads e (skip n es)
unfolding skip
skip-Leads zero e es l = l
skip-Leads (suc n) e [] l = tt
skip-Leads (suc n) e (x ∷ es) l = skip-Leads n e es l.1

pub prefix-Leads :
    (n : ℕ) (es : List OutboxEvent) → Ordered es → All (λ e. Leads e (skip n es)) (take n es)
unfolding skip
prefix-Leads zero es o = tt
prefix-Leads (suc n) [] o = tt
prefix-Leads (suc n) (e ∷ es) o = (skip-Leads n e es o.0, prefix-Leads n es o.1)

length-insert : (e : OutboxEvent) (es : List OutboxEvent) → length (insert e es) ≡ suc (length es)
unfolding insert
length-insert e [] = refl
length-insert e (x ∷ es) = ground (arith, length-insert e es)

pub length-in_order : (es : List OutboxEvent) → length (in_order es) ≡ length es
unfolding in_order
length-in_order [] = refl
length-in_order (e ∷ es) = omega (arith, length-insert e (in_order es), length-in_order es)
