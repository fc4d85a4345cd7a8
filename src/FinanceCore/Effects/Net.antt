-- ===== src/FinanceCore/Effects/Net.antt =====
-- The net balance of a party under `applyPartyBalance` of financecore/service.go.
use textile_erp_cloud.Base.{
  ◌≡◌, refl, sym, ap, ◌∙◌, inl, inr, Bool, true, false, not, ◌&&◌, List, [], ◌∷◌, ◌++◌, arith,
  Bool-cases, if◌then◌else◌, find, is_some, update_first,
}
use textile_erp_cloud.Base.Int.{ℤ, pos, leb_ℤ, beq_ℤ, beq_ℤ_iff, ◌+ℤ◌, ◌-ℤ◌, neg, int_laws}
use textile_erp_cloud.Base.Int64.{neg64}
use textile_erp_cloud.FinanceCore.Types.{Request}
use textile_erp_cloud.FinanceCore.Store.{Balance}
use textile_erp_cloud.FinanceCore.Effects.{
  is_supplier_payment, is_balance_of, add_to, change_balance, signed_effect, delta, balances_after,
}

-- Debit less credit over the rows of a party of a company, without those of sub-projects.
abbrev pub net : ℤ → ℤ → List Balance → ℤ
net c p [] = pos 0
net c p (b ∷ bs) = if is_balance_of c p b then (b.debit -ℤ b.credit) +ℤ net c p bs else net c p bs

abbrev pub is_same : ℤ → ℤ → ℤ → ℤ → Bool
is_same co party c p = beq_ℤ party p && beq_ℤ co c

abbrev pub if_same : ℤ → ℤ → ℤ → ℤ → ℤ → ℤ
if_same co party c p x = if is_same co party c p then x else pos 0

is_balance_of-other :
    (co party c p : ℤ) (b : Balance)
    → is_balance_of co party b ≡ true
    → is_balance_of c p b ≡ is_same co party c p
is_balance_of-other co party c p b h = ground arith

added_to_row :
    (s : Bool) (d k x y n : ℤ)
    → (if s then (x +ℤ d -ℤ (y +ℤ k)) +ℤ n else n)
      ≡ (if s then (x -ℤ y) +ℤ n else n) +ℤ (if s then d -ℤ k else pos 0)
added_to_row true d k x y n = omega int_laws
added_to_row false d k x y n = omega int_laws

kept_row :
    (s : Bool) (x n m e : ℤ)
    → n ≡ m +ℤ e
    → (if s then x +ℤ n else n) ≡ (if s then x +ℤ m else m) +ℤ e
kept_row true x n m e h = rw h (omega int_laws)
kept_row false x n m e h = h

net-update_first :
    (co party c p debit credit : ℤ) (bs : List Balance)
    → is_some (find (is_balance_of co party) bs) ≡ true
    → net c p (update_first (is_balance_of co party) (add_to debit credit) bs)
      ≡ net c p bs +ℤ if_same co party c p (debit -ℤ credit)
net-update_first co party c p debit credit [] h = cc
net-update_first co party c p debit credit (b ∷ bs) h =
    elim (Bool-cases (is_balance_of co party b)) [
      | inl hit ↦
          rw (hit, is_balance_of-other co party c p b hit)
            (added_to_row (is_same co party c p) debit credit b.debit b.credit (net c p bs))
      | inr miss ↦
          let there : is_some (find (is_balance_of co party) bs) ≡ true = rw miss at h in
          rw miss (
            kept_row (is_balance_of c p b) (b.debit -ℤ b.credit)
              (net c p (update_first (is_balance_of co party) (add_to debit credit) bs))
              (net c p bs) (if_same co party c p (debit -ℤ credit))
              (net-update_first co party c p debit credit bs there))
    ]

net-append :
    (c p : ℤ) (xs : List Balance) (b : Balance)
    → net c p (xs ++ (b ∷ [])) ≡ net c p xs +ℤ net c p (b ∷ [])
net-append c p [] b = omega int_laws
net-append c p (x ∷ xs) b = elim (Bool-cases (is_balance_of c p x)) [
  | inl mine ↦ rw (mine, net-append c p xs b) (omega int_laws)
  | inr other ↦ rw (other, net-append c p xs b) refl
]

new_row :
    (party co : Bool) (d k : ℤ)
    → (if party && co && not false then (d -ℤ k) +ℤ pos 0 else pos 0)
      ≡ (if party && co then d -ℤ k else pos 0)
new_row true true d k = omega int_laws
new_row true false d k = refl
new_row false co d k = refl

net-change_balance :
    (co party c p debit credit : ℤ) (bs : List Balance)
    → net c p (change_balance co party debit credit bs)
      ≡ net c p bs +ℤ if_same co party c p (debit -ℤ credit)
unfolding change_balance
net-change_balance co party c p debit credit bs =
    elim (Bool-cases (is_some (find (is_balance_of co party) bs))) [
      | inl there ↦ rw there (net-update_first co party c p debit credit bs there)
      | inr missing ↦ rw missing (
          net-append c p bs _
          ∙ ap (λ x. net c p bs +ℤ x) (new_row (beq_ℤ party p) (beq_ℤ co c) debit credit))
    ]

if_same-zero : (co party c p : ℤ) → if_same co party c p (pos 0) ≡ pos 0
if_same-zero co party c p = ground arith

-- The change of a balance that a request of a party makes.
abbrev pub owed : ℤ → Request → ℤ → ℤ → ℤ → ℤ
owed co req c p e = if leb_ℤ req.party_id (pos 0) then pos 0 else if_same co req.party_id c p e

owed-zero : (co : ℤ) (req : Request) (c p : ℤ) → owed co req c p (pos 0) ≡ pos 0
owed-zero co req c p = ground (arith, if_same-zero co req.party_id c p)

unchanged : (x : ℤ) → x ≡ x +ℤ pos 0
unchanged x = omega int_laws

delta_lem :
    (reverse : Bool) (req : Request)
    → neg64 (signed_effect reverse req) ≡ neg (signed_effect reverse req)
    → (delta reverse req).0 -ℤ (delta reverse req).1 ≡ signed_effect reverse req
delta_lem reverse req h = elim (Bool-cases (is_supplier_payment req)) [
  | inl payment ↦ rw (payment, h) (omega int_laws)
  | inr other ↦ rw other (omega int_laws)
]

-- Where the negation does not wrap around, `applyPartyBalance` changes the net balance of the
-- party of the request by the signed effect, and no other.
pub net-balances_after :
    (co : ℤ) (req : Request) (reverse : Bool) (c p : ℤ) (bs : List Balance)
    → neg64 (signed_effect reverse req) ≡ neg (signed_effect reverse req)
    → net c p (balances_after co req reverse bs)
      ≡ net c p bs +ℤ owed co req c p (signed_effect reverse req)
unfolding balances_after
net-balances_after co req reverse c p bs h =
    let e = signed_effect reverse req in
    elim (Bool-cases (beq_ℤ e (pos 0))) [
      | inl zero ↦ rw zero (
          unchanged (net c p bs)
          ∙ ap (λ x. net c p bs +ℤ x)
              (sym (ap (owed co req c p) ((beq_ℤ_iff e (pos 0)).0 zero) ∙ owed-zero co req c p)))
      | inr some_effect ↦ elim (Bool-cases (leb_ℤ req.party_id (pos 0))) [
        | inl nobody ↦ rw (some_effect, nobody) (unchanged (net c p bs))
        | inr party ↦
            rw (some_effect, party)
              (net-change_balance co req.party_id c p (delta reverse req).0 (delta reverse req).1 bs
                ∙ ap (λ x. net c p bs +ℤ if_same co req.party_id c p x) (delta_lem reverse req h))
      ]
    ]
