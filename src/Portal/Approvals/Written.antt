-- ===== src/Portal/Approvals/Written.antt =====
-- The account that an approval of portal_server/orders.go writes is in the file.
use mathlib.Core.Path.{subst}
use textile_erp_cloud.Base.{
  ◌≡◌, refl, sym, inl, inr, Bool, true, false, ◌||◌, List, [], ◌∷◌, ◌++◌, Bool-cases, find,
  update_first, is_some,
}
use textile_erp_cloud.Base.Int.{ℤ, pos, ltb_ℤ, beq_ℤ, beq_ℤ_iff}
use textile_erp_cloud.Base.Result.{Result, ok, err, Yields-ok, ok-same}
use textile_erp_cloud.Base.Text.{Text, trim_space}
use textile_erp_cloud.Portal.Access.{Access}
use textile_erp_cloud.Portal.Managed.{
  stored, create_access, create_managed, update_access, update_managed,
}
use textile_erp_cloud.Portal.Terms.{Spec}
use textile_erp_cloud.Portal.Managed.Sound.{create_access-HasNextId, update_access-HasOldId}
use textile_erp_cloud.Portal.Orders.{Order, approved}
use textile_erp_cloud.Portal.Services.{AccessError, Services, Draws}
use textile_erp_cloud.Portal.Store.{Row, read_accesses, write_accesses, has_id, any}
use textile_erp_cloud.Portal.Store.Hits.{written_id-found}
use textile_erp_cloud.Portal.Store.Kept.{next_id-IsCounted}
use textile_erp_cloud.Portal.Approvals.{is_account_of, find_account}
use textile_erp_cloud.Portal.Approvals.Saves.{stamped}

-- The order as it is saved with an account.
abbrev pub closed : Text → Order → Access → ℤ → Order
closed admin_note o a company = record o {
  status = approved;
  access_id = a.id;
  financial_company_id = company;
  admin_note = trim_space admin_note;
}

pub by_number :
    (n : Order)
    → ltb_ℤ (pos 0) n.access_id ≡ true
    → (x : Access) → x.id ≡ n.access_id
    → is_account_of n x ≡ true
by_number n h x e =
    let own : beq_ℤ x.id n.access_id ≡ true = (beq_ℤ_iff x.id n.access_id).1 e in rw (h, own) refl

-- The account that a call has written is found.
pub written_account :
    (now : ℤ) (admin_note : Text) (o : Order) (a : Access) (company : ℤ) (items : List Access)
    → ltb_ℤ (pos 0) a.id ≡ true
    → any (has_id a.id) items ≡ true
    → is_some (find_account (stamped now (closed admin_note o a company)) (write_accesses items))
      ≡ true
unfolding find_account
written_account now admin_note o a company items c h =
    let n = stamped now (closed admin_note o a company) in
    written_id-found (is_account_of n) a.id items (by_number n c) h

last_any : (a : Access) (items : List Access) → any (has_id a.id) (items ++ (a ∷ [])) ≡ true
last_any a [] = let own : beq_ℤ a.id a.id ≡ true = (beq_ℤ_iff a.id a.id).1 refl in rw own refl
last_any a (x ∷ more) = or_last (has_id a.id x) (last_any a more)
  where
    or_last : (b : Bool) {c : Bool} → c ≡ true → (b || c) ≡ true
    or_last true h = refl
    or_last false h = h

put_any :
    (a : Access) (items : List Access)
    → is_some (find (has_id a.id) items) ≡ true
    → any (has_id a.id) (update_first (has_id a.id) (λ _. a) items) ≡ true
put_any a [] h = absurd (cc)
put_any a (x ∷ more) h = elim (Bool-cases (has_id a.id x)) [
  | inl hit ↦
      let own : beq_ℤ a.id a.id ≡ true = (beq_ℤ_iff a.id a.id).1 refl in rw hit (rw own refl)
  | inr miss ↦ rw miss (rw miss (put_any a more (rw miss at h)))
]

-- What a call that makes or changes an account leaves, where it succeeds.
abbrev pub HasWritten : Result AccessError (Access × Text) × List Row → Type 0
HasWritten r =
    (a : Access) (shown : Text)
    → r.0 ≡ ok (a, shown)
    → (items : List Access) × (r.1 ≡ write_accesses items)
      × (ltb_ℤ (pos 0) a.id ≡ true)
      × (any (has_id a.id) items ≡ true)

stored-HasWritten :
    (file : List Row) (f : Access × Text → List Access) (r : Result AccessError (Access × Text))
    → ((x : Access × Text)
        → r ≡ ok x
        → (ltb_ℤ (pos 0) x.0.id ≡ true) × (any (has_id x.0.id) (f x) ≡ true))
    → HasWritten (stored file f r)
stored-HasWritten file f (err e) h a shown k = absurd (cc)
stored-HasWritten file f (ok x) h a shown k =
    let same : x ≡ (a, shown) = ok-same k in
    let (c, hit) =
      subst
        (λ (y : Access × Text). (ltb_ℤ (pos 0) y.0.id ≡ true) × (any (has_id y.0.id) (f x) ≡ true))
        same (h x refl) in
    (f x, refl, c, hit)

pub create_managed-HasWritten :
    (sv : Services) (now : ℤ) (dr : Draws) (raw : Spec) (file : List Row)
    → HasWritten (create_managed sv now dr raw file)
unfolding create_managed
create_managed-HasWritten sv now dr raw file =
    stored-HasWritten file (λ r. read_accesses file ++ (r.0 ∷ []))
      (create_access sv now dr raw (read_accesses file))
      λ x e.
        let i = Yields-ok (create_access-HasNextId sv now dr raw (read_accesses file)) e in
        (rw i (next_id-IsCounted (read_accesses file)), last_any x.0 (read_accesses file))

pub update_managed-HasWritten :
    (sv : Services) (now : ℤ) (dr : Draws) (id : ℤ) (raw : Spec) (file : List Row)
    → ltb_ℤ (pos 0) id ≡ true
    → HasWritten (update_managed sv now dr id raw file)
unfolding update_managed
update_managed-HasWritten sv now dr id raw file c =
    stored-HasWritten file (λ r. update_first (has_id id) (λ _. r.0) (read_accesses file))
      (update_access sv now dr id raw (read_accesses file))
      λ x e.
        let (own, hit) =
          Yields-ok (update_access-HasOldId sv now dr id raw (read_accesses file)) e in
        (rw own c, put_at x.0 id (read_accesses file) own hit)
  where
    put_at :
        (a : Access) (id : ℤ) (items : List Access)
        → a.id ≡ id
        → is_some (find (has_id id) items) ≡ true
        → any (has_id a.id) (update_first (has_id id) (λ _. a) items) ≡ true
    put_at a id items e h =
        subst (λ i. any (has_id a.id) (update_first (has_id i) (λ _. a) items) ≡ true) e
          (put_any a items (subst (λ i. is_some (find (has_id i) items) ≡ true) (sym e) h))
