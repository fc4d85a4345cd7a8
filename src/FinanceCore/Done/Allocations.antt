-- ===== src/FinanceCore/Done/Allocations.antt =====
-- `saveAllocations` of financecore/service.go goes through for an accepted request.
use textile_erp_cloud.Base.{
  ◌≡◌, refl, inl, inr, Bool, true, false, not, ◌&&◌, ◌||◌, List, [], ◌∷◌, arith, Bool-cases, All,
}
use textile_erp_cloud.Base.Int.{ℤ, pos, ltb_ℤ, leb_ℤ, ◌<ℤ◌}
use textile_erp_cloud.Base.Int64.{◌+₆₄◌, ◌-₆₄◌}
use textile_erp_cloud.Base.Result.{ok, refuse_if, refuse_if-ok, >>=-ok}
use textile_erp_cloud.Base.Text.{Text, codes, text_eq, is_empty, trim_space}
use textile_erp_cloud.FinanceCore.Types.{AllocationInput, Request, Error}
use textile_erp_cloud.FinanceCore.Validate.{
  is_receipt, allowed_document, allocation_total, check_allocations, validate_allocations,
}
use textile_erp_cloud.FinanceCore.Store.{Db}
use textile_erp_cloud.FinanceCore.Effects.{
  document_type, insert_allocation, insert_allocations, is_empty_list, save_remainder,
  save_allocations,
}
use textile_erp_cloud.FinanceCore.Done.{Does, Does-bind}

-- The row that is written for an allocation passes the checks of the table.
abbrev IsStorable : AllocationInput → Type 0
IsStorable a = (allowed_document (document_type a) ≡ true) × (pos 0 <ℤ a.allocated)

given_true : (b : Bool) → not b ≡ false → b ≡ true
given_true b h = ground arith

kept_type :
    (a : AllocationInput)
    → not (allowed_document (trim_space a.document_type)) ≡ false
    → allowed_document (document_type a) ≡ true
unfolding allowed_document text_eq
kept_type a h = elim (Bool-cases (is_empty (trim_space a.document_type))) [
  | inl blank ↦ rw blank refl
  | inr given ↦ rw given (given_true (allowed_document (trim_space a.document_type)) h)
]

positive : (x : ℤ) → leb_ℤ x (pos 0) ≡ false → pos 0 <ℤ x
positive x h = ground arith

storable :
    (rest : List AllocationInput) (total t : ℤ)
    → allocation_total total rest ≡ ok t
    → All IsStorable rest
unfolding allocation_total
storable [] total t h = tt
storable (a ∷ rest) total t h =
    let (p, h1) = refuse_if-ok (leb_ℤ a.allocated (pos 0)) Error.bad_allocation _ _ h in
    let (kind, h2) =
      refuse_if-ok (not (allowed_document (trim_space a.document_type))) Error.bad_document_type _ _
        h1 in
    ((kept_type a kind, positive a.allocated p), storable rest (total +₆₄ a.allocated) t h2)

inputs_fit :
    (req : Request) (inputs : List AllocationInput)
    → check_allocations req inputs ≡ ok tt
    → All IsStorable inputs
inputs_fit req [] h = tt
inputs_fit req (a ∷ rest) h =
    let (_, h1) = refuse_if-ok (not (is_receipt req)) Error.allocation_not_allowed _ _ h in
    let (t, h2, h3) =
      >>=-ok (allocation_total (pos 0) (a ∷ rest))
        (λ total. refuse_if (ltb_ℤ req.amount total) Error.too_much_allocated) tt h1 in
    storable (a ∷ rest) (pos 0) t h2

insert_allocation-Does :
    (co txn party : ℤ) (kind : Text) (amount : ℤ) (db : Db)
    → allowed_document kind ≡ true
    → leb_ℤ amount (pos 0) ≡ false
    → Does (λ _ d. Unit {0}) (insert_allocation co txn party kind amount db)
unfolding insert_allocation
insert_allocation-Does co txn party kind amount db k p = rw (k, p) tt

not_leb : (x : ℤ) → pos 0 <ℤ x → leb_ℤ x (pos 0) ≡ false
not_leb x h = ground arith

insert_allocations-Does :
    (co txn party total : ℤ) (inputs : List AllocationInput) (db : Db)
    → All IsStorable inputs
    → Does (λ _ d. Unit {0}) (insert_allocations co txn party total inputs db)
unfolding insert_allocations
insert_allocations-Does co txn party total [] db h = tt
insert_allocations-Does co txn party total (a ∷ rest) db ((k, p), h) =
    Does-bind (λ _ d. Unit {0}) (λ _ d. Unit {0})
      (insert_allocation co txn party (document_type a) a.allocated)
      (λ _. insert_allocations co txn party (total +₆₄ a.allocated) rest) db
      (insert_allocation-Does co txn party (document_type a) a.allocated db k
        (not_leb a.allocated p))
      (λ _ d _. insert_allocations-Does co txn party (total +₆₄ a.allocated) rest d h)

credit_allowed : allowed_document (codes "UNALLOCATED_CREDIT") ≡ true
unfolding allowed_document text_eq
credit_allowed = refl

some_left : (b : Bool) (x : ℤ) → (b && ltb_ℤ (pos 0) x) ≡ true → leb_ℤ x (pos 0) ≡ false
some_left b x h = ground arith

save_remainder-Does :
    (co txn : ℤ) (req : Request) (total : ℤ) (db : Db)
    → Does (λ _ d. Unit {0}) (save_remainder co txn req total db)
unfolding save_remainder
save_remainder-Does co txn req total db =
    let left = req.amount -₆₄ total in
    let wanted = is_empty_list req.allocations || ltb_ℤ total req.amount in
    elim (Bool-cases (wanted && ltb_ℤ (pos 0) left)) [
      | inr none_left ↦ rw none_left tt
      | inl more ↦ rw more (
          insert_allocation-Does co txn req.party_id (codes "UNALLOCATED_CREDIT") left db
            credit_allowed (some_left wanted left more))
    ]

pub save_allocations-Does :
    (co txn : ℤ) (req : Request) (db : Db)
    → validate_allocations req ≡ ok tt
    → Does (λ _ d. Unit {0}) (save_allocations co txn req db)
unfolding save_allocations validate_allocations
save_allocations-Does co txn req db h =
    elim (Bool-cases (not (is_receipt req) || leb_ℤ req.party_id (pos 0))) [
      | inl skip ↦ rw skip tt
      | inr go ↦ rw go (
          Does-bind (λ _ d. Unit {0}) (λ _ d. Unit {0})
            (insert_allocations co txn req.party_id (pos 0) req.allocations)
            (save_remainder co txn req) db
            (insert_allocations-Does co txn req.party_id (pos 0) req.allocations db
              (inputs_fit req req.allocations h))
            (λ total d _. save_remainder-Does co txn req total d))
    ]
