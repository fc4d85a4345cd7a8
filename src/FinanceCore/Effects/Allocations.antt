-- ===== src/FinanceCore/Effects/Allocations.antt =====
-- What `saveAllocations` of financecore/service.go stores of an accepted receipt.
use textile_erp_cloud.Base.{
  ◌≡◌, refl, sym, ap, ◌∙◌, inl, inr, Bool, false, not, ◌&&◌, ◌||◌, List, [], ◌∷◌, ◌++◌, All,
  All-append, arith, Bool-cases, if◌then◌else◌,
}
use mathlib.Core.Path.{subst}
use mathlib.Core.List.{append-nil, append_assoc}
use textile_erp_cloud.Base.Int.{ℤ, pos, ltb_ℤ, leb_ℤ, ◌≤ℤ◌, ◌<ℤ◌, ◌+ℤ◌, ◌-ℤ◌, int_laws}
use textile_erp_cloud.Base.Int64.{InInt64, wrap64-eq, InInt64-below, sub-InInt64, ◌+₆₄◌, ◌-₆₄◌}
use textile_erp_cloud.Base.Result.{ok, refuse_if, refuse_if-ok, >>=-ok}
use textile_erp_cloud.Base.Text.{Text, codes, trim_space}
use textile_erp_cloud.FinanceCore.Types.{AllocationInput, Request, Error}
use textile_erp_cloud.FinanceCore.Validate.{
  is_receipt, allowed_document, allocation_total, check_allocations, validate_allocations,
}
use textile_erp_cloud.FinanceCore.Store.{Allocation, Db, ◌>>=◌}
use textile_erp_cloud.FinanceCore.Frames.{Ensures, Ensures-weaken, Ensures-bind}
use textile_erp_cloud.FinanceCore.Effects.{
  document_type, insert_allocation, insert_allocations, is_empty_list, save_remainder,
  save_allocations,
}

-- The exact sums, of the request and of the rows.
abbrev pub requested : List AllocationInput → ℤ
requested [] = pos 0
requested (a ∷ rest) = a.allocated +ℤ requested rest

abbrev pub stored : List Allocation → ℤ
stored [] = pos 0
stored (a ∷ rest) = a.allocated +ℤ stored rest

-- The sum that the code keeps in an `int64`.
abbrev pub running_total : ℤ → List AllocationInput → ℤ
running_total total [] = total
running_total total (a ∷ rest) = running_total (total +₆₄ a.allocated) rest

abbrev pub IsPositive : AllocationInput → Type 0
IsPositive a = pos 0 <ℤ a.allocated

checked :
    (a : AllocationInput) (rest : List AllocationInput) (total t : ℤ)
    → allocation_total total (a ∷ rest) ≡ ok t
    → IsPositive a × (allocation_total (total +₆₄ a.allocated) rest ≡ ok t)
unfolding allocation_total
checked a rest total t h =
    let (positive, h1) = refuse_if-ok (leb_ℤ a.allocated (pos 0)) Error.bad_allocation _ _ h in
    let (kind, h2) =
      refuse_if-ok (not (allowed_document (trim_space a.document_type))) Error.bad_document_type _ _
        h1 in
    (ground arith, h2)

pub allocation_total_lem :
    (rest : List AllocationInput) (total t : ℤ)
    → allocation_total total rest ≡ ok t
    → All IsPositive rest × (t ≡ running_total total rest)
unfolding allocation_total
allocation_total_lem [] total t h = (tt, ground arith)
allocation_total_lem (a ∷ rest) total t h =
    let (p, k) = checked a rest total t h in
    let (ps, e) = allocation_total_lem rest (total +₆₄ a.allocated) t k in ((p, ps), e)

-- Without overflow the sum in the `int64` is the exact sum.
requested_nonneg :
    (inputs : List AllocationInput) → All IsPositive inputs → pos 0 ≤ℤ requested inputs
requested_nonneg [] ps = omega arith
requested_nonneg (a ∷ rest) (p, ps) = omega (int_laws, requested_nonneg rest ps)

pub running_total_exact :
    (rest : List AllocationInput) (total : ℤ)
    → All IsPositive rest
    → pos 0 ≤ℤ total
    → InInt64 (total +ℤ requested rest)
    → running_total total rest ≡ total +ℤ requested rest
running_total_exact [] total ps h r = omega int_laws
running_total_exact (a ∷ rest) total (p, ps) h r =
    let sum = total +ℤ a.allocated in
    let n = requested_nonneg rest ps in
    let whole : sum +ℤ requested rest ≡ total +ℤ requested (a ∷ rest) = omega int_laws in
    let fits : InInt64 (sum +ℤ requested rest) = rw whole r in
    let small = InInt64-below sum (sum +ℤ requested rest) (omega int_laws) (omega int_laws) fits in
    rw (wrap64-eq sum small) (running_total_exact rest sum ps (omega int_laws) fits ∙ whole)

-- The rows that the transaction `txn` gains, of one company and party.
abbrev pub IsOf : ℤ → ℤ → ℤ → Allocation → Type 0
IsOf co txn party a = (a.company ≡ co) × (a.txn ≡ txn) × (a.party ≡ party) × (pos 0 <ℤ a.allocated)

-- The table of allocations grew by `new`, and nothing else changed.
abbrev pub Grown : List Allocation → Db → Db → Type 0
Grown new a b = b ≡ record a { allocations = a.allocations ++ new }

not_refused : (b : Bool) (x : ℤ) → (b || leb_ℤ x (pos 0)) ≡ false → pos 0 <ℤ x
not_refused b x h = ground arith

Grown-append :
    (xs ys : List Allocation) (a b c : Db) → Grown xs a b → Grown ys b c → Grown (xs ++ ys) a c
Grown-append xs ys a b c h k =
    rw (k, h) (ap (λ l. record a { allocations = l }) (append_assoc a.allocations xs ys))

Grown-nil : (a : Db) → Grown [] a a
Grown-nil a = sym (ap (λ l. record a { allocations = l }) (append-nil a.allocations))

-- The rows of a party that were added, with their sum.
abbrev pub Added : ℤ → ℤ → ℤ → ℤ → Db → Db → Type 0
Added co txn party sum a b =
    (new : List Allocation) × All (IsOf co txn party) new × (stored new ≡ sum) × Grown new a b

stored-append : (xs ys : List Allocation) → stored (xs ++ ys) ≡ stored xs +ℤ stored ys
stored-append [] ys = omega int_laws
stored-append (x ∷ xs) ys = rw (stored-append xs ys) (omega int_laws)

Added-nil : (co txn party : ℤ) (a : Db) → Added co txn party (pos 0) a a
Added-nil co txn party a = ([], tt, refl, Grown-nil a)

Added-after :
    (co txn party s t : ℤ) (a b c : Db)
    → Added co txn party s a b
    → Added co txn party t b c
    → Added co txn party (s +ℤ t) a c
Added-after co txn party s t a b c (xs, hx, sx, gx) (ys, hy, sy, gy) = (
  xs ++ ys,
  All-append (IsOf co txn party) xs ys hx hy,
  rw (stored-append xs ys, sx, sy) refl,
  Grown-append xs ys a b c gx gy,
)

insert_allocation_lem :
    (co txn party : ℤ) (kind : Text) (amount : ℤ) (db : Db)
    → Ensures
        (λ _ d. Added co txn party amount db d)
        (insert_allocation co txn party kind amount db)
unfolding insert_allocation
insert_allocation_lem co txn party kind amount db =
    let refused = not (allowed_document kind) || leb_ℤ amount (pos 0) in
    elim (Bool-cases refused) [
      | inl bad ↦ rw bad tt
      | inr fine ↦
          let p = not_refused (not (allowed_document kind)) amount fine in
          rw fine (_, ((refl, refl, refl, p), tt), omega int_laws, refl)
    ]

insert_allocations_lem :
    (co txn party total : ℤ) (inputs : List AllocationInput) (db : Db)
    → Ensures
        (λ t d. Added co txn party (requested inputs) db d × (t ≡ running_total total inputs))
        (insert_allocations co txn party total inputs db)
unfolding insert_allocations
insert_allocations_lem co txn party total [] db = (Added-nil co txn party db, refl)
insert_allocations_lem co txn party total (i ∷ rest) db =
    let next = total +₆₄ i.allocated in
    Ensures-bind (λ _ d. Added co txn party i.allocated db d)
      (λ t d. Added co txn party (requested (i ∷ rest)) db d × (t ≡ running_total next rest))
      (insert_allocation co txn party (document_type i) i.allocated)
      (λ _. insert_allocations co txn party next rest) db
      (insert_allocation_lem co txn party (document_type i) i.allocated db)
      λ _ b h.
        Ensures-weaken
          (λ t d. Added co txn party (requested rest) b d × (t ≡ running_total next rest))
          (λ t d. Added co txn party (requested (i ∷ rest)) db d × (t ≡ running_total next rest))
          (insert_allocations co txn party next rest b)
          (λ t d k. (Added-after co txn party i.allocated (requested rest) db b d h k.0, k.1))
          (insert_allocations_lem co txn party next rest b)

not_refused_total :
    (amount t : ℤ) → refuse_if (ltb_ℤ amount t) Error.too_much_allocated ≡ ok tt → t ≤ℤ amount
not_refused_total amount t h = ground arith

-- What the checks of the allocations give.
check_allocations_lem :
    (req : Request) (inputs : List AllocationInput)
    → check_allocations req inputs ≡ ok tt
    → pos 0 <ℤ req.amount
    → All IsPositive inputs × (running_total (pos 0) inputs ≤ℤ req.amount)
check_allocations_lem req [] h p = (tt, omega arith)
check_allocations_lem req (a ∷ rest) h p =
    let (_, h1) = refuse_if-ok (not (is_receipt req)) Error.allocation_not_allowed _ _ h in
    let (t, h2, h3) =
      >>=-ok (allocation_total (pos 0) (a ∷ rest))
        (λ total. refuse_if (ltb_ℤ req.amount total) Error.too_much_allocated) tt h1 in
    let (ps, e) = allocation_total_lem (a ∷ rest) (pos 0) t h2 in
    (ps, rw (← e) (not_refused_total req.amount t h3))

nothing_left :
    (e : Bool) (amount total : ℤ)
    → total ≤ℤ amount
    → ((e || ltb_ℤ total amount) && ltb_ℤ (pos 0) (amount -ℤ total)) ≡ false
    → pos 0 ≡ amount -ℤ total
unfolding ◌-ℤ◌
nothing_left e amount total h k = ground arith

-- An accepted receipt of a party stores allocations that add up to its amount.
save_receipt :
    (co txn : ℤ) (req : Request) (db : Db) (total : ℤ)
    → total ≡ requested req.allocations
    → pos 0 ≤ℤ total
    → total ≤ℤ req.amount
    → pos 0 <ℤ req.amount
    → InInt64 req.amount
    → Ensures
        (λ _ d. Added co txn req.party_id (req.amount -ℤ total) db d)
        (save_remainder co txn req total db)
unfolding save_remainder
save_receipt co txn req db total e n h p r =
    let rest = req.amount -ℤ total in
    let same : req.amount -₆₄ total ≡ rest = wrap64-eq rest (sub-InInt64 req.amount total r n h) in
    let more = (is_empty_list req.allocations || ltb_ℤ total req.amount) && ltb_ℤ (pos 0) rest in
    rw same (elim (Bool-cases more) [
      | inl some_left ↦
          rw some_left
            (insert_allocation_lem co txn req.party_id (codes "UNALLOCATED_CREDIT") rest db)
      | inr none_left ↦ rw none_left (
          subst (λ s. Added co txn req.party_id s db db)
            (nothing_left (is_empty_list req.allocations) req.amount total h none_left)
            (Added-nil co txn req.party_id db))
    ])

-- What `saveAllocations` is to store in all.
abbrev pub to_allocate : Request → ℤ
to_allocate req = if not (is_receipt req) || leb_ℤ req.party_id (pos 0) then pos 0 else req.amount

save_all :
    (co txn : ℤ) (req : Request) (db : Db)
    → validate_allocations req ≡ ok tt
    → pos 0 <ℤ req.amount
    → InInt64 req.amount
    → InInt64 (requested req.allocations)
    → Ensures
        (λ _ d. Added co txn req.party_id req.amount db d)
        ((insert_allocations co txn req.party_id (pos 0) req.allocations >>= λ total.
            save_remainder co txn req total)
          db)
unfolding validate_allocations
save_all co txn req db h p r fits =
    let inputs = req.allocations in
    let (ps, le) = check_allocations_lem req inputs h p in
    let whole : pos 0 +ℤ requested inputs ≡ requested inputs = omega int_laws in
    let n = requested_nonneg inputs ps in
    let exact : running_total (pos 0) inputs ≡ requested inputs =
      running_total_exact inputs (pos 0) ps (omega arith) (rw whole fits) ∙ whole in
    let below : requested inputs ≤ℤ req.amount = rw exact at le in
    Ensures-bind
      (λ t d.
        Added co txn req.party_id (requested inputs) db d × (t ≡ running_total (pos 0) inputs))
      (λ _ d. Added co txn req.party_id req.amount db d)
      (insert_allocations co txn req.party_id (pos 0) inputs) (save_remainder co txn req) db
      (insert_allocations_lem co txn req.party_id (pos 0) inputs db)
      λ t b k.
        let same = k.1 ∙ exact in
        Ensures-weaken (λ _ d. Added co txn req.party_id (req.amount -ℤ t) b d)
          (λ _ d. Added co txn req.party_id req.amount db d) (save_remainder co txn req t b)
          (λ _ d m.
            subst (λ s. Added co txn req.party_id s db d) (rw same (omega int_laws))
              (Added-after co txn req.party_id (requested inputs) (req.amount -ℤ t) db b d k.0 m))
          (save_receipt co txn req b t same (rw same n) (rw same below) p r)

-- For a request whose allocations and amount were accepted and fit an `int64`, what is stored adds up
-- to the amount of a receipt of a party, and is nothing otherwise.
pub save_allocations_lem :
    (co txn : ℤ) (req : Request) (db : Db)
    → validate_allocations req ≡ ok tt
    → pos 0 <ℤ req.amount
    → InInt64 req.amount
    → InInt64 (requested req.allocations)
    → Ensures
        (λ _ d. Added co txn req.party_id (to_allocate req) db d)
        (save_allocations co txn req db)
unfolding save_allocations
save_allocations_lem co txn req db h p r fits =
    elim (Bool-cases (not (is_receipt req) || leb_ℤ req.party_id (pos 0))) [
      | inl skip ↦ rw skip (Added-nil co txn req.party_id db)
      | inr go ↦ rw go (save_all co txn req db h p r fits)
    ]
