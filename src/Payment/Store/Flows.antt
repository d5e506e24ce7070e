-- ===== src/Payment/Store/Flows.antt =====
-- What the flow store of in_memory_payment_flow_store.py keeps.
use flower_web_infrastructur.Prelude.{
  ◌+◌, ◌≡◌, ◌⊎◌, inl, inr, refl, ◌∙◌, true, false, not, ◌&&◌, none, some, [], ◌∷◌, String, arith,
  if◌then◌else◌, ◌==◌, string_eq, pair_eq, Option-cases, Bool-cases, pair_beq_iff, ==_refl, ==_ne,
  ap, sym,
}
use text.Mathlib.TextEquality.{eq_iff}
use flower_web_infrastructur.Prelude.Dict
use flower_web_infrastructur.Prelude.Dict.{Dict, get-put, get-put_self}
use flower_web_infrastructur.Payment.Store.{
  FlowEvent, FlowRecord, FlowStore, append, find_by_order_and_event, sum_refunded, sum_refunds,
  is_refund_of, find_by_flow_id, mark_original, reversed, event_eq,
}

-- The number under which `append` files a record.
abbrev pub filed_id : String → FlowRecord → String
filed_id uuid r = if r.flow_id == "" then uuid else r.flow_id

-- Every entry of the index leads to a flow of that order and that event.
pub record IsValid (s : FlowStore) : Type 0 where
  pub indexed :
      (trade_no : String) (event : FlowEvent) (id : String)
      → Dict.get (trade_no, event) s.by_key ≡ some id
      → (f : FlowRecord) × (Dict.get id s.flows ≡ some f)
        × (f.out_trade_no ≡ trade_no)
        × (f.event_type ≡ event)

abbrev mark_of : FlowRecord → FlowRecord → FlowRecord
mark_of r f = record f { status = reversed; reversed_at = r.reversed_at }

-- A mark changes no flow, or one of them.
mark_cases :
    (r : FlowRecord) (flows : Dict String FlowRecord)
    → (mark_original r flows ≡ flows)
      ⊎ ((f : FlowRecord) × (Dict.get r.original_flow_id flows ≡ some f)
          × (mark_original r flows ≡ Dict.put r.original_flow_id (mark_of r f) flows))
unfolding mark_original
mark_cases r flows = elim (Bool-cases (r.is_reversal && not (r.original_flow_id == ""))) [
  | inr plain ↦ inl (rw plain refl)
  | inl reverses ↦ elim (Option-cases (Dict.get r.original_flow_id flows)) [
    | inl missing ↦ inl (rw (reverses, missing) refl)
    | inr (f, found) ↦ inr (f, found, rw (reverses, found) refl)
  ]
]

-- A mark leaves a flow where it is, with its order, its event and its amount.
mark_keeps :
    (r : FlowRecord) (flows : Dict String FlowRecord) (id : String) (f : FlowRecord)
    → Dict.get id flows ≡ some f
    → (g : FlowRecord) × (Dict.get id (mark_original r flows) ≡ some g)
      × (g.out_trade_no ≡ f.out_trade_no)
      × (g.event_type ≡ f.event_type)
      × (g.amount ≡ f.amount)
mark_keeps r flows id f h = elim (mark_cases r flows) [
  | inl same ↦ (f, rw same h, refl, refl, refl)
  | inr (o, found, e) ↦ elim (Bool-cases (r.original_flow_id == id)) [
    | inl this ↦
        let same : r.original_flow_id ≡ id = (eq_iff r.original_flow_id id).0 this in
        let o' : o ≡ f = ground arith in
        (mark_of r f, rw (e, get-put, this, o') refl, refl, refl, refl)
    | inr other ↦ (f, rw (e, get-put, other) h, refl, refl, refl)
  ]
]

pub append-new :
    (uuid : String) (r : FlowRecord) (s : FlowStore)
    → find_by_order_and_event r.out_trade_no r.event_type s ≡ none
    → append uuid r s ≡ (
      record {
        flows =
            Dict.put
              (filed_id uuid r)
              (record r { flow_id = filed_id uuid r })
              (mark_original r s.flows);
        by_key = Dict.put (r.out_trade_no, r.event_type) (filed_id uuid r) s.by_key;
      },
      record r { flow_id = filed_id uuid r },
    )
unfolding append
append-new uuid r s h = rw (h, append)

-- A flow that is new under its order and event is filed, and found under both of its keys.
pub append-filed :
    (uuid : String) (r : FlowRecord) (s : FlowStore)
    → find_by_order_and_event r.out_trade_no r.event_type s ≡ none
    → let (s', r') = append uuid r s in
      (r' ≡ record r { flow_id = filed_id uuid r })
      × (find_by_order_and_event r.out_trade_no r.event_type s' ≡ some r')
      × (find_by_flow_id (filed_id uuid r) s' ≡ some r')
unfolding find_by_order_and_event find_by_flow_id
append-filed uuid r s h = rw (append-new uuid r s h) (
  refl,
  rw (get-put_self, find_by_order_and_event) (get-put_self (filed_id uuid r) _ _),
  get-put_self (filed_id uuid r) _ _,
)

-- A second flow of the same order and event changes nothing, and the first one is the answer.
pub append-again :
    (uuid : String) (r : FlowRecord) (s : FlowStore) (f : FlowRecord)
    → find_by_order_and_event r.out_trade_no r.event_type s ≡ some f
    → append uuid r s ≡ (s, f)
unfolding append
append-again uuid r s f h = rw (h, append)

-- Where the index of a new flow leads, entry by entry.
indexed_new :
    (uuid : String) (r : FlowRecord) (s : FlowStore)
    → IsValid s
    → Dict.get (filed_id uuid r) s.flows ≡ none
    → (trade_no : String) (event : FlowEvent) (id : String)
    → Dict.get
        (trade_no, event)
        (Dict.put (r.out_trade_no, r.event_type) (filed_id uuid r) s.by_key)
      ≡ some id
    → (f : FlowRecord) × (Dict.get id (
          Dict.put
            (filed_id uuid r)
            (record r { flow_id = filed_id uuid r })
            (mark_original r s.flows))
        ≡ some f)
      × (f.out_trade_no ≡ trade_no)
      × (f.event_type ≡ event)
indexed_new uuid r s v fresh trade_no event id h =
    let key : String × FlowEvent = (r.out_trade_no, r.event_type) in
    let h' : (if key == (trade_no, event)
          then some (filed_id uuid r)
          else Dict.get (trade_no, event) s.by_key)
        ≡ some id =
      rw get-put at h in
    elim (Bool-cases (key == (trade_no, event))) [
      | inl this ↦
          let same : key ≡ (trade_no, event) = (pair_beq_iff key (trade_no, event)).0 this in
          let here : filed_id uuid r ≡ id =
            let e : some (filed_id uuid r) ≡ some id = rw this at h' in cc in
          (
            record r { flow_id = filed_id uuid r },
            rw (← here) (get-put_self (filed_id uuid r) _ _),
            ap (λ p. p.0) same,
            ap (λ p. p.1) same,
          )
      | inr other ↦
          let (f, found, p, q) = v.indexed trade_no event id (rw other at h') in
          let (g, found', p', q', _) = mark_keeps r s.flows id f found in
          let differs : (filed_id uuid r == id) ≡ false =
            ==_ne (filed_id uuid r) id
              (λ e. let w = rw e at fresh in let w' = sym found ∙ w in cc) in
          (g, rw (get-put, differs) found', p' ∙ p, q' ∙ q)
    ]

-- `append` keeps the index valid, if the number that it files a new flow under is not in use.
pub append-IsValid :
    (uuid : String) (r : FlowRecord) (s : FlowStore)
    → IsValid s
    → find_by_flow_id (filed_id uuid r) s ≡ none
    → IsValid (append uuid r s).0
append-IsValid uuid r s v fresh =
    elim (Option-cases (find_by_order_and_event r.out_trade_no r.event_type s)) [
      | inr (f, found) ↦ rw (append-again uuid r s f found) v
      | inl new ↦
          rw (append-new uuid r s new)
            (record { indexed = indexed_new uuid r s v (unfold find_by_flow_id in fresh) })
    ]

sum-put_fresh :
    (trade_no id : String) (f : FlowRecord) (flows : Dict String FlowRecord)
    → Dict.get id flows ≡ none
    → sum_refunds trade_no (Dict.put id f flows)
      ≡ sum_refunds trade_no flows + (if is_refund_of trade_no f then f.amount else 0)
sum-put_fresh trade_no id f [] h = omega arith
sum-put_fresh trade_no id f ((k, g) ∷ flows) h = elim (Bool-cases (k == id)) [
  | inl same ↦ absurd (ground arith)
  | inr other ↦
      let h' : Dict.get id flows ≡ none = ground arith in
      let ih = sum-put_fresh trade_no id f flows h' in rw (other, ih) (omega arith)
]

mark-sum :
    (trade_no : String) (r : FlowRecord) (flows : Dict String FlowRecord)
    → r.is_reversal ≡ false
    → mark_original r flows ≡ flows
unfolding mark_original
mark-sum trade_no r flows h = rw h

-- A refund flow that is new under its order adds its amount to what the order has refunded; the
-- number it is filed under must not be in use.
pub append-sum_refunded :
    (uuid : String) (r : FlowRecord) (s : FlowStore)
    → r.is_reversal ≡ false
    → r.event_type ≡ FlowEvent.refund
    → find_by_order_and_event r.out_trade_no r.event_type s ≡ none
    → find_by_flow_id (filed_id uuid r) s ≡ none
    → sum_refunded r.out_trade_no (append uuid r s).0 ≡ sum_refunded r.out_trade_no s + r.amount
unfolding sum_refunded find_by_flow_id
append-sum_refunded uuid r s plain event new fresh =
    let r' : FlowRecord = record r { flow_id = filed_id uuid r } in
    let counts : is_refund_of r.out_trade_no r' ≡ true = rw (plain, event, ==_refl) refl in
    rw (append-new uuid r s new, mark-sum r.out_trade_no r s.flows plain)
      (sum-put_fresh r.out_trade_no (filed_id uuid r) r' s.flows fresh ∙ rw counts refl)
