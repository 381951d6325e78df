-- ===== src/Ledger/Running.antt =====
-- The running balances of the ledger, `balancesByFundingAccount` in `listForScope` of the API's
-- ledger/ledger.service.ts, and the posted balance that the worker's SQL sums.
use achflow.Prelude.{
  ℕ, zero, suc, ◌≡◌, ◌∙◌, refl, sym, ap, true, false, Option, none, some, List, [], ◌∷◌, ◌++◌,
  length, arith, ◌==◌, if◌then◌else◌, Bool-cases, inl, inr, All,
}
use achflow.Prelude.Int.{ℤ, pos, ◌+ℤ◌, int_laws}
use achflow.Schema.{Db, LedgerEntry}
use achflow.Ledger.{entry_impact, sum_entries, posted_balance}
use achflow.Ledger.Listing.{LedgerRow, insert_entry, in_time, set_balance, ledger_rows}

-- The running balance of the row at a position.
unfoldable pub running_at : ℕ → List LedgerRow → Option ℤ
running_at n [] = none
running_at zero (r ∷ rs) = some r.running_balance_cents
running_at (suc n) (r ∷ rs) = running_at n rs

module _ (account : ℕ) where
  sum_entries-append :
      (xs ys : List LedgerEntry)
      → sum_entries account (xs ++ ys) ≡ sum_entries account xs +ℤ sum_entries account ys
  unfolding sum_entries
  sum_entries-append [] ys = grind int_laws
  sum_entries-append (x ∷ xs) ys = grind (int_laws, sum_entries-append xs ys)

  sum_entries-insert :
      (e : LedgerEntry) (es : List LedgerEntry)
      → sum_entries account (insert_entry e es) ≡ sum_entries account (e ∷ es)
  unfolding sum_entries insert_entry
  sum_entries-insert e [] = refl
  sum_entries-insert e (x ∷ es) = grind (int_laws, sum_entries-insert e es)

  pub sum_entries-in_time :
      (es : List LedgerEntry) → sum_entries account (in_time es) ≡ sum_entries account es
  unfolding sum_entries in_time
  sum_entries-in_time [] = refl
  sum_entries-in_time (e ∷ es) =
      grind (int_laws, sum_entries-insert e (in_time es), sum_entries-in_time es)

  of_others :
      (es : List LedgerEntry)
      → All (λ x. (x.funding_account_id == account) ≡ false) es
      → sum_entries account es ≡ pos 0
  unfolding sum_entries
  of_others [] a = refl
  of_others (e ∷ es) a = grind (int_laws, a.0, of_others es a.1)

  ends_there :
      (before after : List LedgerEntry) (e : LedgerEntry)
      → All (λ x. (x.funding_account_id == account) ≡ false) after
      → sum_entries account (before ++ (e ∷ [])) ≡ sum_entries account (before ++ (e ∷ after))
  unfolding sum_entries
  ends_there before after e a =
      rw
        (
          sum_entries-append before (e ∷ []),
          sum_entries-append before (e ∷ after),
          of_others after a,
        )
        refl

  -- The balance of an account, after an entry of one.
  balance_step :
      (k : ℕ) (balances : ℕ → ℤ) (impact rest : ℤ)
      → set_balance k (balances k +ℤ impact) balances account +ℤ rest
        ≡ balances account +ℤ ((if k == account then impact else pos 0) +ℤ rest)
  balance_step k balances impact rest = elim (Bool-cases (k == account)) [
    | inl e ↦
        let same_account : k ≡ account = ground (arith, e) in
        let own : (account == account) ≡ true = ground arith in
        rw (same_account, own) (grind int_laws)
    | inr e ↦
        let other : (account == k) ≡ false = ground (arith, e) in rw (e, other) (grind int_laws)
  ]

-- From any balances.
running_from :
    (balances : ℕ → ℤ) (before after : List LedgerEntry) (e : LedgerEntry)
    → running_at (length before) (ledger_rows balances (before ++ (e ∷ after)))
      ≡ some
          (balances e.funding_account_id +ℤ sum_entries e.funding_account_id (before ++ (e ∷ [])))
unfolding running_at ledger_rows sum_entries
running_from balances [] after e = ap some (
    let own : (e.funding_account_id == e.funding_account_id) ≡ true = ground arith in
    rw own (grind int_laws))
running_from balances (x ∷ before) after e =
    let a = e.funding_account_id in
    let rest =
      running_from
        (set_balance x.funding_account_id
          (balances x.funding_account_id +ℤ entry_impact x.entry_type x.amount) balances)
        before after e in
    rest
    ∙ ap some (
        balance_step a x.funding_account_id balances (entry_impact x.entry_type x.amount)
          (sum_entries a (before ++ (e ∷ []))))

-- The running balance of an entry is the sum of the entries of its account up to it.
pub running_balance :
    (before after : List LedgerEntry) (e : LedgerEntry)
    → running_at (length before) (ledger_rows (λ i. pos 0) (before ++ (e ∷ after)))
      ≡ some (sum_entries e.funding_account_id (before ++ (e ∷ [])))
running_balance before after e = running_from (λ i. pos 0) before after e ∙ ap some (grind int_laws)

-- Where all entries are listed, the running balance of the last entry of an account is the posted
-- balance of the account.
pub last_running :
    (db : Db) (before after : List LedgerEntry) (e : LedgerEntry)
    → in_time db.ledger_entries ≡ before ++ (e ∷ after)
    → All (λ x. (x.funding_account_id == e.funding_account_id) ≡ false) after
    → running_at (length before) (ledger_rows (λ i. pos 0) (in_time db.ledger_entries))
      ≡ some (posted_balance e.funding_account_id db)
unfolding posted_balance
last_running db before after e split others =
    let a = e.funding_account_id in
    let whole : sum_entries a (before ++ (e ∷ after)) ≡ sum_entries a db.ledger_entries =
      rw (sym split) (sum_entries-in_time a db.ledger_entries) in
    rw split (running_balance before after e ∙ ap some (ends_there a before after e others ∙ whole))
