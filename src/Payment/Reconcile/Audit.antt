-- ===== src/Payment/Reconcile/Audit.antt =====
-- capabilities/payment/reconciliation/reconciliation_audit_store.py (the in-memory store) and `reconcile` and
-- `is_reconciled` of reconciliation_service.py. The time of a record, which no code reads, is left out. A
-- record and its result share the list of differences, which no one changes after the record is made.
pub mod Rounds
use flower_web_infrastructur.Prelude.{
  ℕ, suc, ◌+◌, Bool, true, false, Option, none, some, List, [], ◌∷◌, String, length, count_if,
  if◌then◌else◌, ◌==◌, string_eq, pair_eq,
}
use flower_web_infrastructur.Prelude.Dict
use flower_web_infrastructur.Prelude.Dict.{Dict}
use flower_web_infrastructur.Payment.Status.{PaymentStatus}
use flower_web_infrastructur.Payment.Store.{FlowRecord, FlowStore}
use flower_web_infrastructur.Payment.Reconcile.{
  DifferenceType, ReconciliationDifference, BillRecord, type_eq, is_manual_only, bills_by_key,
  flows_by_key, bill_differences, flow_differences, matched_count, differences_of,
}
use flower_web_infrastructur.Payment.Reconcile.Handling.{
  Answer, RefundStatus, Tally, Failure, AllTreated, all_treated, all_failed, handle_differences,
}

pub record AuditRecord : Type 0 where
  pub audit_id : String
  pub channel : String
  pub biz_date : String
  pub total_count : ℕ
  pub difference_count : ℕ
  pub difference_types : Dict DifferenceType ℕ
  pub differences : List ReconciliationDifference

pub record AuditStore : Type 0 where
  pub records : Dict String AuditRecord
  pub by_key : Dict (String × String) AuditRecord

-- `uuid` is the number that is drawn for a record that has none.
unfoldable pub append : String → AuditRecord → AuditStore → AuditStore × AuditRecord
append uuid r a =
    let r' = if r.audit_id == "" then record r { audit_id = uuid } else r in
    elim (Dict.get r'.audit_id a.records) [
      | some existing ↦ (a, existing)
      | none ↦ (
        record {
          records = Dict.put r'.audit_id r' a.records;
          by_key = Dict.put (r'.channel, r'.biz_date) r' a.by_key;
        },
        r',
      )
    ]

unfoldable pub find_by_channel_and_date : String → String → AuditStore → Option AuditRecord
find_by_channel_and_date channel biz_date a = Dict.get (channel, biz_date) a.by_key

unfoldable pub is_reconciled : String → String → AuditStore → Bool
unfolding find_by_channel_and_date
is_reconciled channel biz_date a = elim (find_by_channel_and_date channel biz_date a) [
  | none ↦ false
  | some r ↦ true
]

pub record ReconciliationResult : Type 0 where
  pub channel : String
  pub biz_date : String
  pub bill_count : ℕ
  pub local_count : ℕ
  pub matched : ℕ
  pub difference_count : ℕ
  pub difference_types : Dict DifferenceType ℕ
  pub auto_booked : ℕ
  pub auto_reversed : ℕ
  pub manual_count : ℕ
  pub audit_id : String
  pub differences : List ReconciliationDifference

abbrev pub count_or_zero : Option ℕ → ℕ
count_or_zero none = 0
count_or_zero (some n) = n

abbrev pub count_types :
    List ReconciliationDifference → Dict DifferenceType ℕ → Dict DifferenceType ℕ
count_types [] d = d
count_types (x ∷ xs) d =
    count_types xs (Dict.put x.diff_type (count_or_zero (Dict.get x.diff_type d) + 1) d)

-- The result before the differences are treated.
abbrev pub opening : List BillRecord → List FlowRecord → String → String → ReconciliationResult
opening bills flows channel biz_date = record {
  channel = channel;
  biz_date = biz_date;
  bill_count = length bills;
  local_count = length flows;
  matched = matched_count (flows_by_key flows []) (bills_by_key bills []);
  difference_count = 0;
  difference_types = count_types (differences_of bills flows) [];
  auto_booked = 0;
  auto_reversed = 0;
  manual_count = 0;
  audit_id = "";
  differences = differences_of bills flows;
}

abbrev pub tallied :
    List ReconciliationDifference → Tally → ReconciliationResult → ReconciliationResult
tallied ds t r = record r {
  differences = ds;
  auto_booked = t.auto_booked;
  auto_reversed = t.auto_reversed;
}

abbrev pub audit_of : ReconciliationResult → AuditRecord
audit_of r = record {
  audit_id = "";
  channel = r.channel;
  biz_date = r.biz_date;
  total_count = r.bill_count;
  difference_count = r.difference_count;
  difference_types = r.difference_types;
  differences = r.differences;
}

abbrev pub is_manual : ReconciliationDifference → Bool
is_manual d = is_manual_only d.diff_type

-- The audit and the last counts of the result.
abbrev pub closing :
    ReconciliationResult → AuditStore × AuditRecord → AuditStore × ReconciliationResult
closing r (a, recorded) = (
  a,
  record r {
    audit_id = recorded.audit_id;
    difference_count = length r.differences;
    manual_count = count_if is_manual r.differences;
  },
)

-- How a round ends: with its result, or by an exception.
pub data Round : Type 0 where
  finished : ReconciliationResult → Round
  aborted : Failure → Round

abbrev pub audited :
    String
    → ReconciliationResult
    → AuditStore
    → FlowStore × AllTreated
    → FlowStore × AuditStore × Round
audited uuid r a (s, all_failed e) = (s, a, aborted e)
audited uuid r a (s, all_treated ds t) =
    let (a', r') = closing (tallied ds t r) (append uuid (audit_of (tallied ds t r)) a) in
    (s, a', finished r')

module _ (auto_handle : Bool) (query_order : Option (ℕ → String → Answer PaymentStatus))
    (query_refund : Option (ℕ → String → Answer RefundStatus))
    (meanwhile : ℕ → FlowStore → FlowStore) (draw : ℕ → String) (clock : ℕ → ℕ) where
  abbrev pub handle_if : List ReconciliationDifference → FlowStore → FlowStore × AllTreated
  handle_if ds s =
      if auto_handle
      then handle_differences query_order query_refund meanwhile draw clock ds s
      else (s, all_treated ds (record { auto_booked = 0; auto_reversed = 0 }))

  -- `uuid` is the number that is drawn for the audit.
  unfoldable pub reconcile :
      String
      → List BillRecord
      → List FlowRecord
      → String
      → String
      → FlowStore
      → AuditStore
      → FlowStore × AuditStore × Round
  unfolding handle_differences append
  reconcile uuid bills flows channel biz_date s a =
      audited uuid (opening bills flows channel biz_date) a
        (handle_if (differences_of bills flows) s)
