-- ===== src/Payment/Reversal.antt =====
-- capabilities/payment/payment_reversal.py over the flow store. The event callback, whose errors are
-- only logged, and the log lines are left out.
use flower_web_infrastructur.Prelude.{
  ℕ, ◌≡◌, refl, Bool, true, false, ◌&&◌, none, some, [], ◌∷◌, String, arith, if◌then◌else◌, ◌==◌,
  string_eq, Option-cases, inl, inr, ==_refl,
}
use flower_web_infrastructur.Prelude.Dict
use flower_web_infrastructur.Prelude.Dict.{Dict}
use flower_web_infrastructur.Payment.Store.{
  FlowStatus, FlowEvent, FlowRecord, FlowStore, find_by_order_and_event, mark_original, append,
  first_reversal, find_reversal,
}
use flower_web_infrastructur.Payment.Store.Flows.{append-new}

-- The flow, or a ValueError.
pub data Reversal : Type 0 where
  recorded : FlowRecord → Reversal
  value_error : Reversal

unfoldable pub reversal_of : ℕ → FlowRecord → FlowRecord
reversal_of now original = record {
  out_trade_no = original.out_trade_no;
  event_type = FlowEvent.reversal;
  amount = original.amount;
  status = FlowStatus.reversed;
  flow_id = "";
  out_refund_no = original.out_refund_no;
  original_flow_id = original.flow_id;
  is_reversal = true;
  reversed_at = some now;
}

abbrev pub is_reversed : FlowStatus → Bool
is_reversed FlowStatus.reversed = true
is_reversed _ = false

abbrev pub record_reversal : FlowStore × FlowRecord → FlowStore × Reversal
record_reversal (s, f) = (s, recorded f)

unfoldable pub reversal_flow : String → ℕ → FlowRecord → FlowStore → FlowStore × Reversal
reversal_flow uuid now original s = elim (find_reversal original.flow_id s) [
  | some existing ↦ (s, recorded existing)
  | none ↦
      if original.is_reversal
      then (s, value_error)
      else if is_reversed original.status
      then (s, value_error)
      else record_reversal (append uuid (reversal_of now original) s)
]

-- A flow that is put where no reversal is, and that is one, is the one that is found.
first_reversal-put :
    (k id : String) (f : FlowRecord) (flows : Dict String FlowRecord)
    → (f.is_reversal && f.original_flow_id == id) ≡ true
    → first_reversal id flows ≡ none
    → first_reversal id (Dict.put k f flows) ≡ some f
first_reversal-put k id f [] is h = ground arith
first_reversal-put k id f ((j, g) ∷ flows) is h = ground (arith, first_reversal-put k id f flows)

-- A mark makes no reversal.
first_reversal-mark :
    (k id : String) (f g : FlowRecord) (flows : Dict String FlowRecord)
    → Dict.get k flows ≡ some f
    → g.is_reversal ≡ f.is_reversal
    → g.original_flow_id ≡ f.original_flow_id
    → first_reversal id flows ≡ none
    → first_reversal id (Dict.put k g flows) ≡ none
first_reversal-mark k id f g [] found same from h = cc
first_reversal-mark k id f g ((j, e) ∷ flows) found same from h =
    ground (arith, first_reversal-mark k id f g flows)

mark_original-none :
    (r : FlowRecord) (id : String) (flows : Dict String FlowRecord)
    → first_reversal id flows ≡ none
    → first_reversal id (mark_original r flows) ≡ none
unfolding mark_original
mark_original-none r id flows h = elim (Option-cases (Dict.get r.original_flow_id flows)) [
  | inl missing ↦ ground arith
  | inr (f, found) ↦
      let g : FlowRecord = record f { status = FlowStatus.reversed; reversed_at = r.reversed_at } in
      ground (arith, first_reversal-mark r.original_flow_id id f g flows found refl refl h)
]

-- A reversal where the order has none is filed, and found.
filed : String → ℕ → FlowRecord → FlowRecord
filed uuid now original = record (reversal_of now original) { flow_id = uuid }

append-reversal :
    (uuid : String) (now : ℕ) (original : FlowRecord) (s : FlowStore)
    → find_reversal original.flow_id s ≡ none
    → find_by_order_and_event original.out_trade_no FlowEvent.reversal s ≡ none
    → ((append uuid (reversal_of now original) s).1 ≡ filed uuid now original)
      × (find_reversal original.flow_id (append uuid (reversal_of now original) s).0
          ≡ some (filed uuid now original))
unfolding reversal_of find_reversal filed
append-reversal uuid now original s new first =
    rw (append-new uuid (reversal_of now original) s first) (
      refl,
      first_reversal-put uuid original.flow_id (filed uuid now original)
          (mark_original (reversal_of now original) s.flows) (==_refl original.flow_id)
          (mark_original-none (reversal_of now original) original.flow_id s.flows new),
    )

reversal_flow-new :
    (uuid : String) (now : ℕ) (original : FlowRecord) (s : FlowStore)
    → find_reversal original.flow_id s ≡ none
    → original.is_reversal ≡ false
    → is_reversed original.status ≡ false
    → reversal_flow uuid now original s ≡ record_reversal (append uuid (reversal_of now original) s)
unfolding reversal_flow
reversal_flow-new uuid now original s new plain fresh = rw (new, reversal_flow, plain, fresh) refl

reversal_flow-again :
    (uuid : String) (now : ℕ) (original r : FlowRecord) (s : FlowStore)
    → find_reversal original.flow_id s ≡ some r
    → reversal_flow uuid now original s ≡ (s, recorded r)
unfolding reversal_flow
reversal_flow-again uuid now original r s found = rw (found, reversal_flow) refl

-- A flow that is neither a reversal nor reversed, of an order without a reversal, is reversed once:
-- the first call books a flow of its amount that points at it, and a later call at any time answers
-- with that flow and changes nothing.
pub reversal_flow-once :
    (uuid again : String) (now later : ℕ) (original : FlowRecord) (s : FlowStore)
    → find_reversal original.flow_id s ≡ none
    → original.is_reversal ≡ false
    → is_reversed original.status ≡ false
    → find_by_order_and_event original.out_trade_no FlowEvent.reversal s ≡ none
    → (r : FlowRecord) × ((reversal_flow uuid now original s).1 ≡ recorded r)
      × (r.amount ≡ original.amount)
      × (r.original_flow_id ≡ original.flow_id)
      × (reversal_flow again later original (reversal_flow uuid now original s).0
          ≡ ((reversal_flow uuid now original s).0, recorded r))
unfolding filed reversal_of
reversal_flow-once uuid again now later original s new plain fresh first =
    let e = reversal_flow-new uuid now original s new plain fresh in
    let (is, found) = append-reversal uuid now original s new first in
    (
      filed uuid now original,
      rw (e, is) refl,
      refl,
      refl,
      rw e (
          reversal_flow-again again later original (filed uuid now original)
            (append uuid (reversal_of now original) s).0 found),
    )

-- Where an order has a reversal of one flow, the reversal of another flow of the order books
-- nothing: it answers with the first flow's reversal and leaves the store as it was.
pub second_reversal_lost :
    (uuid : String) (now : ℕ) (original r : FlowRecord) (s : FlowStore)
    → find_reversal original.flow_id s ≡ none
    → original.is_reversal ≡ false
    → is_reversed original.status ≡ false
    → find_by_order_and_event original.out_trade_no FlowEvent.reversal s ≡ some r
    → reversal_flow uuid now original s ≡ (s, recorded r)
unfolding append reversal_of
second_reversal_lost uuid now original r s new plain fresh other =
    let e = reversal_flow-new uuid now original s new plain fresh in rw (e, append, other) refl
