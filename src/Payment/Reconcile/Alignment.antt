-- ===== src/Payment/Reconcile/Alignment.antt =====
-- The alignment of reconciliation_service.py read key by key: the differences that stand under an order and
-- event are those of the last bill and the last flow that have it.
use flower_web_infrastructur.Prelude.{
  ◌≡◌, refl, sym, ◌∙◌, ap, Bool, true, false, Option, none, some, List, [], ◌∷◌, ◌++◌,
  if◌then◌else◌, arith, Bool-cases, Option-cases, inl, inr, ◌==◌, string_eq, pair_eq, pair_beq_iff,
  keep, nat_beq,
}
use flower_web_infrastructur.Prelude.Dict
use flower_web_infrastructur.Prelude.Dict.{Dict}
use flower_web_infrastructur.Payment.Store.{FlowRecord, FlowEvent, event_eq}
use flower_web_infrastructur.Payment.Reconcile.{
  ReconciliationDifference, BillRecord, Key, flow_key, bill_key, difference_key, flows_by_key,
  bills_by_key, compare_with, only_in_bill, unbilled, bill_differences, flow_differences,
  differences_of, status_matches,
}

-- The last record of a key.
abbrev pub last_of : {V : Type 0} → (V → Key) → Key → List V → Option V
last_of key k [] = none
last_of key k (v ∷ vs) = elim (last_of key k vs) [
  | some w ↦ some w
  | none ↦ if key v == k then some v else none
]

-- What the bill and the flow of one key come to.
abbrev pub verdict : Option BillRecord → Option FlowRecord → List ReconciliationDifference
verdict (some b) o = compare_with b o
verdict none none = []
verdict none (some f) = unbilled f ∷ []

abbrev at_key : Key → ReconciliationDifference → Bool
at_key k d = difference_key d == k

flows_by_key-IsIndex :
    (fs : List FlowRecord) (d : Dict Key FlowRecord)
    → Dict.IsIndex flow_key d
    → Dict.IsIndex flow_key (flows_by_key fs d)
flows_by_key-IsIndex [] d h = h
flows_by_key-IsIndex (f ∷ fs) d h =
    flows_by_key-IsIndex fs (Dict.put (flow_key f) f d) (Dict.put-IsIndex flow_key f d h)

bills_by_key-IsIndex :
    (bs : List BillRecord) (d : Dict Key BillRecord)
    → Dict.IsIndex bill_key d
    → Dict.IsIndex bill_key (bills_by_key bs d)
bills_by_key-IsIndex [] d h = h
bills_by_key-IsIndex (b ∷ bs) d h =
    bills_by_key-IsIndex bs (Dict.put (bill_key b) b d) (Dict.put-IsIndex bill_key b d h)

abbrev or_else : {V : Type 0} → Option V → Option V → Option V
or_else (some v) o = some v
or_else none o = o

or_else-last :
    {V : Type 0} (key : V → Key) (k : Key) (v : V) (vs : List V) (o : Option V)
    → or_else (last_of key k vs) (if key v == k then some v else o)
      ≡ or_else (last_of key k (v ∷ vs)) o
or_else-last key k v vs o = elim (Option-cases (last_of key k vs)) [
  | inl none_there ↦
      rw none_there
        (elim (Bool-cases (key v == k)) [ inl same ↦ rw same refl | inr other ↦ rw other refl ])
  | inr (w, found) ↦ rw found refl
]

get-flows_by_key :
    (k : Key) (fs : List FlowRecord) (d : Dict Key FlowRecord)
    → Dict.get k (flows_by_key fs d) ≡ or_else (last_of flow_key k fs) (Dict.get k d)
get-flows_by_key k [] d = refl
get-flows_by_key k (f ∷ fs) d =
    get-flows_by_key k fs (Dict.put (flow_key f) f d)
    ∙ ap (or_else (last_of flow_key k fs)) (Dict.get-put (flow_key f) k f d)
    ∙ or_else-last flow_key k f fs (Dict.get k d)

get-bills_by_key :
    (k : Key) (bs : List BillRecord) (d : Dict Key BillRecord)
    → Dict.get k (bills_by_key bs d) ≡ or_else (last_of bill_key k bs) (Dict.get k d)
get-bills_by_key k [] d = refl
get-bills_by_key k (b ∷ bs) d =
    get-bills_by_key k bs (Dict.put (bill_key b) b d)
    ∙ ap (or_else (last_of bill_key k bs)) (Dict.get-put (bill_key b) k b d)
    ∙ or_else-last bill_key k b bs (Dict.get k d)

keep-append :
    {A : Type 0} (p : A → Bool) (xs ys : List A) → keep p (xs ++ ys) ≡ keep p xs ++ keep p ys
keep-append p [] ys = refl
keep-append p (x ∷ xs) ys = ground (arith, keep-append p xs ys)

keep-single :
    (k : Key) (d : ReconciliationDifference) (t : Bool)
    → at_key k d ≡ t
    → keep (at_key k) (d ∷ []) ≡ (if t then d ∷ [] else [])
keep-single k d t h = rw h refl

keep-compare :
    (k : Key) (b : BillRecord) (o : Option FlowRecord)
    → ((f : FlowRecord) → o ≡ some f → flow_key f ≡ bill_key b)
    → keep (at_key k) (compare_with b o) ≡ (if bill_key b == k then compare_with b o else [])
keep-compare k b none same = keep-single k (only_in_bill b) (bill_key b == k) refl
keep-compare k b (some f) same =
    let e : (flow_key f == k) ≡ (bill_key b == k) = ap (λ x. x == k) (same f refl) in
    elim (Bool-cases (nat_beq f.amount b.amount)) [
      | inr differs ↦ rw differs (keep-single k _ (bill_key b == k) e)
      | inl equal ↦ elim (Bool-cases (status_matches f b)) [
        | inr differs ↦ rw equal (rw differs (keep-single k _ (bill_key b == k) e))
        | inl agrees ↦ rw equal (rw agrees (nothing (bill_key b == k)))
      ]
    ]
  where
    nothing : (t : Bool) → ◌≡◌ {A = List ReconciliationDifference} [] (if t then [] else [])
    nothing true = refl
    nothing false = refl

append_nil : {A : Type 0} (xs : List A) → xs ++ [] ≡ xs
append_nil [] = refl
append_nil (x ∷ xs) = ap (λ ys. x ∷ ys) (append_nil xs)

-- What a bill that may be there comes to.
abbrev billed : Option BillRecord → Option FlowRecord → List ReconciliationDifference
billed none o = []
billed (some b) o = compare_with b o

-- What a flow that may be there comes to, where there is no bill.
abbrev left_over : Bool → Option FlowRecord → List ReconciliationDifference
left_over has_bill none = []
left_over has_bill (some f) = if has_bill then [] else unbilled f ∷ []

keep-bill_differences :
    (k : Key) (flows : Dict Key FlowRecord) (bills : Dict Key BillRecord)
    → Dict.IsIndex flow_key flows
    → Dict.IsIndex bill_key bills
    → keep (at_key k) (bill_differences flows bills) ≡ billed (Dict.get k bills) (Dict.get k flows)
keep-bill_differences k flows [] hf hb = refl
keep-bill_differences k flows ((j, b) ∷ bills) hf (new, own, hb) =
    let one =
      keep-compare k b (Dict.get j flows)
        (λ f g. Dict.IsIndex-get flow_key j f flows hf g ∙ sym own)
      ∙ ap (λ x. if x == k then compare_with b (Dict.get j flows) else []) own in
    let rest = keep-bill_differences k flows bills hf hb in
    keep-append (at_key k) (compare_with b (Dict.get j flows)) (bill_differences flows bills)
    ∙ elim (Bool-cases (j == k)) [
      | inl same ↦
          let e : j ≡ k = (pair_beq_iff j k).0 same in
          let absent : Dict.get k bills ≡ none =
            Dict.contains-get k bills (sym (ap (λ x. Dict.contains x bills) e) ∙ new) in
          rw one (
            rw rest
              (rw same (rw absent (append_nil _ ∙ ap (λ x. compare_with b (Dict.get x flows)) e))))
      | inr other ↦ rw one (rw rest (rw other refl))
    ]

unbilled-key : (f : FlowRecord) → difference_key (unbilled f) ≡ flow_key f
unbilled-key f = elim (Bool-cases (f.event_type == FlowEvent.refund)) [
  | inl is ↦ rw is refl
  | inr other ↦ rw other refl
]

keep-unbilled :
    (k : Key) (f : FlowRecord) (has_bill t : Bool)
    → (flow_key f == k) ≡ t
    → keep (at_key k) (if has_bill then [] else unbilled f ∷ [])
      ≡ (if has_bill then [] else if t then unbilled f ∷ [] else [])
keep-unbilled k f true t h = refl
keep-unbilled k f false t h = keep-single k (unbilled f) t (ap (λ x. x == k) (unbilled-key f) ∙ h)

keep-flow_differences :
    (k : Key) (bills : Dict Key BillRecord) (flows : Dict Key FlowRecord)
    → Dict.IsIndex flow_key flows
    → keep (at_key k) (flow_differences bills flows)
      ≡ left_over (Dict.contains k bills) (Dict.get k flows)
keep-flow_differences k bills [] hf = refl
keep-flow_differences k bills ((j, f) ∷ flows) (new, own, hf) =
    let one = keep-unbilled k f (Dict.contains j bills) (j == k) (ap (λ x. x == k) own) in
    let rest = keep-flow_differences k bills flows hf in
    keep-append (at_key k) (if Dict.contains j bills then [] else unbilled f ∷ [])
      (flow_differences bills flows)
    ∙ elim (Bool-cases (j == k)) [
      | inl same ↦
          let e : j ≡ k = (pair_beq_iff j k).0 same in
          let absent : Dict.get k flows ≡ none =
            Dict.contains-get k flows (sym (ap (λ x. Dict.contains x flows) e) ∙ new) in
          rw one (
            rw rest (
              rw same (
                rw absent (
                  append_nil _
                  ∙ ap (λ x. if Dict.contains x bills then [] else unbilled f ∷ []) e))))
      | inr other ↦ rw one (rw rest (rw other (nothing (Dict.contains j bills) _)))
    ]
  where
    nothing : (t : Bool) (xs : List ReconciliationDifference) → (if t then [] else []) ++ xs ≡ xs
    nothing true xs = refl
    nothing false xs = refl

-- Both loops together at one key.
both-verdict :
    (k : Key) (bills : Dict Key BillRecord) (o : Option FlowRecord)
    → billed (Dict.get k bills) o ++ left_over (Dict.contains k bills) o
      ≡ verdict (Dict.get k bills) o
both-verdict k bills o = elim (Option-cases (Dict.get k bills)) [
  | inl absent ↦ rw absent (rw (Dict.get-contains k bills absent) (plain o))
  | inr (b, found) ↦ rw found (
      rw (Dict.contains-get-some k b bills found)
        (ap (λ xs. compare_with b o ++ xs) (none_left o) ∙ append_nil (compare_with b o)))
]
  where
    plain : (o : Option FlowRecord) → left_over false o ≡ verdict none o
    plain none = refl
    plain (some f) = refl

    none_left : (o : Option FlowRecord) → left_over true o ≡ []
    none_left none = refl
    none_left (some f) = refl

-- The differences that stand under an order and event are what the last bill and the last flow of that order
-- and event come to: none where both are there with one amount and matching statuses, or neither is, and
-- otherwise the one of its kind.
pub differences_of-verdict :
    (k : Key) (bills : List BillRecord) (flows : List FlowRecord)
    → keep (at_key k) (differences_of bills flows)
      ≡ verdict (last_of bill_key k bills) (last_of flow_key k flows)
differences_of-verdict k bills flows =
    let fs = flows_by_key flows [] in
    let bs = bills_by_key bills [] in
    let hf = flows_by_key-IsIndex flows [] tt in
    keep-append (at_key k) (bill_differences fs bs) (flow_differences bs fs)
    ∙ ap (λ xs. xs ++ keep (at_key k) (flow_differences bs fs))
        (keep-bill_differences k fs bs hf (bills_by_key-IsIndex bills [] tt))
    ∙ ap (λ xs. billed (Dict.get k bs) (Dict.get k fs) ++ xs) (keep-flow_differences k bs fs hf)
    ∙ both-verdict k bs (Dict.get k fs)
    ∙ ap (λ b. verdict b (Dict.get k fs))
        (get-bills_by_key k bills [] ∙ plain (last_of bill_key k bills))
    ∙ ap (verdict (last_of bill_key k bills))
        (get-flows_by_key k flows [] ∙ plain (last_of flow_key k flows))
  where
    plain : {V : Type 0} (o : Option V) → or_else o none ≡ o
    plain none = refl
    plain (some v) = refl
