-- ===== src/Schema/Keeping/Combinators.antt =====
-- What a transaction keeps, and that sequencing and branching keep it.
use achflow.Prelude.{
  ℕ, Bool, true, false, ◌≡◌, refl, Option, none, some, List, [], ◌++◌, subst, ap, sym, ◌∙◌,
  if◌then◌else◌, arith, find,
}
use mathlib.Core.List.{append_assoc}
use achflow.Schema.Rows.{LedgerEntry, Payment}
use achflow.Schema.Store.{
  Db, Tx, Result, Error, ok, err, pure, throw, gets, or_throw, throw_if, ◌>>=◌, ◌>>◌,
  when◌then◌else◌, either_row,
}
use achflow.Schema.Tables.{has_id}
use achflow.Schema.Ids.{WellFormed}

-- The terms of a payment: what it is of, and between whom.
abbrev pub SameTerms : Payment → Payment → Type 0
SameTerms p p' =
    (p'.id ≡ p.id)
    × (p'.amount_cents ≡ p.amount_cents)
    × (p'.currency ≡ p.currency)
    × (p'.direction ≡ p.direction)
    × (p'.merchant_id ≡ p.merchant_id)
    × (p'.routing_number ≡ p.routing_number)

-- What every transaction keeps: the order of ids, the entries of the ledger, and where the rows are
-- in the order of their ids, the payments with their terms.
pub record Kept (db db' : Db) : Type 0 where
  pub ordered : WellFormed db → WellFormed db'
  pub entries : (new : List LedgerEntry) × (db'.ledger_entries ≡ new ++ db.ledger_entries)
  pub payments :
      WellFormed db
      → (j : ℕ) (p : Payment) → find (has_id j) db.payments ≡ some p
      → (p' : Payment) × (find (has_id j) db'.payments ≡ some p') × SameTerms p p'

pub Kept-refl : (db db' : Db) → db ≡ db' → Kept db db'
Kept-refl db db' e = subst (Kept db) e (record {
  ordered = λ w. w;
  entries = ([], refl);
  payments = λ w j p h. (p, h, (refl, refl, refl, refl, refl, refl));
})

pub Kept-trans : (db1 db2 db3 : Db) → Kept db1 db2 → Kept db2 db3 → Kept db1 db3
Kept-trans db1 db2 db3 k l = record {
  ordered = λ w. l.ordered (k.ordered w);
  entries =
      let (new, e) = k.entries in
      let (newer, e') = l.entries in
      (
        newer ++ new,
        e'
            ∙ ap (λ (es : List LedgerEntry). newer ++ es) e
            ∙ sym (append_assoc newer new db1.ledger_entries),
      );
  payments = λ w j p h.
      let (p', h', s) = k.payments w j p h in
      let (p'', h'', s') = l.payments (k.ordered w) j p' h' in (p'', h'', ground arith);
}

pub record Keeps {A : Type 0} (m : Tx A) : Type 0 where
  pub apply : (db db' : Db) (a : A) → m db ≡ ok (a, db') → Kept db db'

module _ {A B : Type 0} where
  pub bind-Keeps : (m : Tx A) (f : A → Tx B) → Keeps m → ((a : A) → Keeps (f a)) → Keeps (m >>= f)
  bind-Keeps m f k l = record { apply = λ db db' b h. go db db' b (m db) refl h }
    where
      go :
          (db db' : Db) (b : B) (r : Result (A × Db))
          → m db ≡ r
          → (elim r [ ok (a, d) ↦ f a d | err e ↦ err e ]) ≡ ok (b, db')
          → Kept db db'
      go db db' b (ok (a, d)) e h = Kept-trans db d db' (k.apply db d a e) ((l a).apply d db' b h)
      go db db' b (err x) e h = cc

  pub then-Keeps : (m : Tx A) (k : Tx B) → Keeps m → Keeps k → Keeps (m >> k)
  then-Keeps m k hm hk = bind-Keeps m (λ _. k) hm (λ _. hk)

  pub either-Keeps :
      (o : Option A) (m : Tx B) (f : A → Tx B)
      → Keeps m
      → ((a : A) → Keeps (f a))
      → Keeps (either_row o m f)
  either-Keeps none m f h k = record { apply = λ db db' b e. h.apply db db' b e }
  either-Keeps (some a) m f h k = record { apply = λ db db' b e. (k a).apply db db' b e }

module _ {A : Type 0} where
  pub pure-Keeps : (a : A) → Keeps (pure a)
  pure-Keeps a = record { apply = λ db db' b h. Kept-refl db db' (ground arith) }

  pub throw-Keeps : (e : Error) → Keeps (throw {A = A} e)
  throw-Keeps e = record { apply = λ db db' b h. cc }

  pub gets-Keeps : (f : Db → A) → Keeps (gets f)
  gets-Keeps f = record { apply = λ db db' b h. Kept-refl db db' (ground arith) }

  pub or_throw-Keeps : (o : Option A) (e : Error) → Keeps (or_throw o e)
  or_throw-Keeps none e = record { apply = λ db db' b h. cc }
  or_throw-Keeps (some a) e = record { apply = λ db db' b h. Kept-refl db db' (ground arith) }

  pub when-Keeps : (c : Bool) (m k : Tx A) → Keeps m → Keeps k → Keeps (when c then m else k)
  when-Keeps true m k hm hk = record { apply = λ db db' b e. hm.apply db db' b e }
  when-Keeps false m k hm hk = record { apply = λ db db' b e. hk.apply db db' b e }

pub throw_if-Keeps : (c : Bool) (e : Error) → Keeps (throw_if c e)
throw_if-Keeps true e = record { apply = λ db db' b h. cc }
throw_if-Keeps false e = record { apply = λ db db' b h. Kept-refl db db' (ground arith) }
