-- ===== src/FinanceCore/Vouchers/Reversal.antt =====
-- What `reverseVoucher` of financecore/service.go does to the tables.
use textile_erp_cloud.Base.{
  ◌≡◌, refl, sym, ◌⊎◌, inl, inr, ℕ, true, false, ◌&&◌, Option, none, some, List, [], ◌∷◌, ◌++◌, map,
  keep, find_sound, &&-true,
}
use textile_erp_cloud.Base.Int.{ℤ, pos, ltb_ℤ, beq_ℤ, beq_ℤ_iff}
use textile_erp_cloud.FinanceCore.Types.{Error}
use textile_erp_cloud.FinanceCore.Store.{of_reversal, Line, Voucher, Db, ◌>>=◌, gets, or_fail}
use textile_erp_cloud.FinanceCore.Frames.{Ensures}
use textile_erp_cloud.FinanceCore.Vouchers.{
  is_line_of, mirror, draft_voucher, mirror_lines, post_if, post_voucher, write_reversal,
  write_unless, reverse_voucher, voucher_by_id, voucher_by_key,
}
use mathlib.Core.Path.{subst}

-- The lines of the voucher `v` with the sides exchanged, under a new voucher.
abbrev pub mirrored : ℤ → ℤ → Db → List Line
mirrored co v db = map (mirror (pos db.next_voucher)) (keep (is_line_of co v) db.lines)

-- No reversal is written: the transaction has no voucher, or there is a reversal of it.
abbrev pub NotWritten : ℤ → ℤ → Db → Type 0
NotWritten co v a =
    (ltb_ℤ (pos 0) v ≡ false) ⊎ ((w : Voucher) × (voucher_by_key co (of_reversal v) a ≡ some w))

-- The voucher that the reversal of `of` starts with.
abbrev pub draft_of : ℤ → Voucher → ℕ → Voucher
draft_of co of id = record {
  id = pos id;
  company = co;
  key = of_reversal of.id;
  date = of.date;
  posted = false;
  reversal_of = of.id;
}

-- A reversal of the voucher `v` was written.
pub record WroteReversal (co v : ℤ) (a b : Db) : Type 0 where
  pub given : ltb_ℤ (pos 0) v ≡ true
  pub unknown : voucher_by_key co (of_reversal v) a ≡ none
  pub of : Voucher
  pub found : voucher_by_id co v a ≡ some of
  pub lines : b.lines ≡ a.lines ++ mirrored co v a
  pub vouchers :
      b.vouchers
      ≡ map (post_if co (pos a.next_voucher)) (a.vouchers ++ (draft_of co of a.next_voucher ∷ []))

abbrev pub JournalReversed : ℤ → ℤ → Db → Db → Type 0
JournalReversed co v a b =
    (NotWritten co v a × (b.lines ≡ a.lines) × (b.vouchers ≡ a.vouchers)) ⊎ WroteReversal co v a b

-- What reversing the voucher `v` did: nothing where it was reversed before.
pub record VoucherReversed (co v : ℤ) (a b : Db) : Type 0 where
  pub txns : b.txns ≡ a.txns
  pub balances : b.balances ≡ a.balances
  pub allocations : b.allocations ≡ a.allocations
  pub journal : JournalReversed co v a b

pub nothing : (co v : ℤ) (a : Db) → NotWritten co v a → VoucherReversed co v a a
nothing co v a n = record {
  txns = refl;
  balances = refl;
  allocations = refl;
  journal = inl (n, refl, refl);
}

write_unless_lem :
    (co : ℤ) (v : Voucher) (known : Option Voucher) (db : Db)
    → ltb_ℤ (pos 0) v.id ≡ true
    → voucher_by_id co v.id db ≡ some v
    → voucher_by_key co (of_reversal v.id) db ≡ known
    → Ensures (λ _ d. VoucherReversed co v.id db d) (write_unless co v known db)
unfolding write_reversal draft_voucher mirror_lines post_voucher
write_unless_lem co v (some r) db g f e = nothing co v.id db (inr (r, e))
write_unless_lem co v none db g f e = record {
  txns = refl;
  balances = refl;
  allocations = refl;
  journal =
      inr (record { given = g; unknown = e; of = v; found = f; lines = refl; vouchers = refl });
}

pub same_id : (co id : ℤ) (v : Voucher) (db : Db) → voucher_by_id co id db ≡ some v → v.id ≡ id
same_id co id v db h =
    (beq_ℤ_iff v.id id).0
      (&&-true _ _ (find_sound (λ w. beq_ℤ w.company co && beq_ℤ w.id id) db.vouchers v h)).1

of_found :
    (co id : ℤ) (found : Option Voucher) (db : Db)
    → ltb_ℤ (pos 0) id ≡ true
    → voucher_by_id co id db ≡ found
    → Ensures
        (λ _ d. VoucherReversed co id db d)
        ((or_fail found Error.constraint_failed >>= λ v.
            gets (voucher_by_key co (of_reversal v.id)) >>= λ known. write_unless co v known)
          db)
of_found co id none db g h = tt
of_found co id (some v) db g h =
    let same = same_id co id v db h in
    rw (← same) (
      write_unless_lem co v (voucher_by_key co (of_reversal v.id) db) db
        (subst (λ i. ltb_ℤ (pos 0) i ≡ true) (sym same) g)
        (subst (λ i. voucher_by_id co i db ≡ some v) (sym same) h) refl)

pub reverse_voucher_lem :
    (co id : ℤ) (db : Db)
    → ltb_ℤ (pos 0) id ≡ true
    → Ensures (λ _ d. VoucherReversed co id db d) (reverse_voucher co id db)
unfolding reverse_voucher
reverse_voucher_lem co id db g = of_found co id (voucher_by_id co id db) db g refl
