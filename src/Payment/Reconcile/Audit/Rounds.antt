-- ===== src/Payment/Reconcile/Audit/Rounds.antt =====
-- What a round of reconciliation_service.py leaves in the audit store.
use flower_web_infrastructur.Prelude.{
  ℕ, ◌≡◌, refl, Bool, true, Option, none, some, List, String, length, string_eq, pair_eq, subst,
}
use flower_web_infrastructur.Prelude.Dict
use flower_web_infrastructur.Payment.Status.{PaymentStatus}
use flower_web_infrastructur.Payment.Store.{FlowRecord, FlowStore}
use flower_web_infrastructur.Payment.Reconcile.{BillRecord, differences_of}
use flower_web_infrastructur.Payment.Reconcile.Handling.{
  Answer, RefundStatus, AllTreated, all_treated, all_failed,
}
use flower_web_infrastructur.Payment.Reconcile.Audit.{
  AuditStore, AuditRecord, append, find_by_channel_and_date, is_reconciled, ReconciliationResult,
  Round, finished, reconcile, audited, handle_if, opening, tallied, closing, audit_of,
}

abbrev numbered : String → AuditRecord → AuditRecord
numbered uuid r = record r { audit_id = uuid }

-- A record that has no number, under a fresh one, is found by its channel and date.
append-new :
    (uuid : String) (r : ReconciliationResult) (a : AuditStore)
    → Dict.get uuid a.records ≡ none
    → append uuid (audit_of r) a ≡ (
      record {
        records = Dict.put uuid (numbered uuid (audit_of r)) a.records;
        by_key = Dict.put (r.channel, r.biz_date) (numbered uuid (audit_of r)) a.by_key;
      },
      numbered uuid (audit_of r),
    )
unfolding append
append-new uuid r a h = rw (h, append) refl

-- What stands in the audit store after a round of these counts.
IsRecorded : String → String → AuditStore → ReconciliationResult → Type 0
IsRecorded channel biz_date a r =
    (is_reconciled channel biz_date a ≡ true)
    × ((audit : AuditRecord) × (find_by_channel_and_date channel biz_date a ≡ some audit)
        × (audit.differences ≡ r.differences)
        × (r.difference_count ≡ length r.differences)
        × (audit.difference_count ≡ 0))

closing-IsRecorded :
    (uuid : String) (r : ReconciliationResult) (a : AuditStore)
    → Dict.get uuid a.records ≡ none
    → r.difference_count ≡ 0
    → let (a', r') = closing r (append uuid (audit_of r) a) in IsRecorded r.channel r.biz_date a' r'
unfolding IsRecorded find_by_channel_and_date is_reconciled
closing-IsRecorded uuid r a fresh zero =
    let found = Dict.get-put_self (r.channel, r.biz_date) (numbered uuid (audit_of r)) a.by_key in
    rw (append-new uuid r a fresh)
      (rw (found, is_reconciled) refl, (numbered uuid (audit_of r), found, refl, refl, zero))

audited-IsRecorded :
    (uuid : String) (r r' : ReconciliationResult) (a a' : AuditStore) (x : FlowStore × AllTreated)
    (s' : FlowStore)
    → Dict.get uuid a.records ≡ none
    → r.difference_count ≡ 0
    → audited uuid r a x ≡ (s', a', finished r')
    → IsRecorded r.channel r.biz_date a' r'
audited-IsRecorded uuid r r' a a' (s, all_failed e) s' fresh zero h = absurd (cc)
audited-IsRecorded uuid r r' a a' (s, all_treated ds t) s' fresh zero h =
    let made = closing (tallied ds t r) (append uuid (audit_of (tallied ds t r)) a) in
    let e : made ≡ (a', r') = same made.0 a' made.1 r' h in
    subst (λ (p : AuditStore × ReconciliationResult). IsRecorded r.channel r.biz_date p.0 p.1) e
      (closing-IsRecorded uuid (tallied ds t r) a fresh zero)
  where
    same :
        (b b' : AuditStore) (q q' : ReconciliationResult)
        → ◌≡◌ {A = FlowStore × AuditStore × Round} (s, b, finished q) (s', b', finished q')
        → ◌≡◌ {A = AuditStore × ReconciliationResult} (b, q) (b', q')
    same b b' q q' k = cc

module _ (auto_handle : Bool) (query_order : Option (ℕ → String → Answer PaymentStatus))
    (query_refund : Option (ℕ → String → Answer RefundStatus))
    (meanwhile : ℕ → FlowStore → FlowStore) (draw : ℕ → String) (clock : ℕ → ℕ) (uuid : String)
    (bills : List BillRecord) (flows : List FlowRecord) (channel biz_date : String) where
  -- A round that finishes under a fresh number is on record: its channel and date count as reconciled from
  -- then on. But the record says that there are 0 differences, whatever the result counts.
  pub reconcile-recorded :
      (s s' : FlowStore) (a a' : AuditStore) (r : ReconciliationResult)
      → Dict.get uuid a.records ≡ none
      → reconcile auto_handle query_order query_refund meanwhile draw clock uuid bills flows channel
          biz_date s a
        ≡ (s', a', finished r)
      → (is_reconciled channel biz_date a' ≡ true)
        × ((audit : AuditRecord) × (find_by_channel_and_date channel biz_date a' ≡ some audit)
            × (audit.differences ≡ r.differences)
            × (r.difference_count ≡ length r.differences)
            × (audit.difference_count ≡ 0))
  unfolding reconcile IsRecorded
  reconcile-recorded s s' a a' r fresh h =
      audited-IsRecorded uuid (opening bills flows channel biz_date) r a a'
        (handle_if auto_handle query_order query_refund meanwhile draw clock
          (differences_of bills flows) s)
        s' fresh refl h
