-- ===== src/Payment/Reconcile/Confirmed.antt =====
-- What the settlement of reconciliation_service.py does to the flows: nothing without the channel's word, and
-- two cases in which it does not do what it means to.
use flower_web_infrastructur.Prelude.{
  ℕ, suc, ◌≡◌, ◌≢◌, refl, sym, ◌∙◌, ap, Bool, true, false, Option, none, some, List, [], ◌∷◌,
  String, if◌then◌else◌, Bool-cases, Option-cases, inl, inr, ◌==◌, string_eq, pair_eq, ==_ne,
}
use flower_web_infrastructur.Prelude.Dict
use flower_web_infrastructur.Payment.Status.{PaymentStatus}
use flower_web_infrastructur.Payment.Store.{
  FlowEvent, FlowRecord, FlowStore, event_eq, append, find_by_order_and_event, find_reversal,
}
use flower_web_infrastructur.Payment.Reversal.{
  Reversal, recorded, value_error, reversal_flow, reversal_of, is_reversed,
}
use flower_web_infrastructur.Payment.Reconcile.{
  DifferenceType, ReconciliationDifference, Key, flow_key,
}
use flower_web_infrastructur.Payment.Reconcile.Handling.{
  Answer, RefundStatus, Tally, Treated, treated, failed, AllTreated, all_treated, all_failed,
  is_paid, is_refunded, is_raised, booked_flow, reversed_as, with_differences, auto_book,
  auto_reverse, auto_refund_book, treat, handle_from, handle_differences,
}

-- The flow that stands under another key is not moved.
append-by_key :
    (uuid : String) (r : FlowRecord) (s : FlowStore) (k : Key)
    → flow_key r ≢ k
    → Dict.get k (append uuid r s).0.by_key ≡ Dict.get k s.by_key
unfolding append
append-by_key uuid r s k other =
    elim (Option-cases (find_by_order_and_event r.out_trade_no r.event_type s)) [
      | inr (f, found) ↦ rw (found, append) refl
      | inl absent ↦
          rw (absent, append)
            (Dict.get-put (flow_key r) k (if r.flow_id == "" then uuid else r.flow_id) s.by_key
              ∙ rw (==_ne (flow_key r) k other) refl)
    ]

reversal_flow-by_key :
    (uuid : String) (now : ℕ) (f : FlowRecord) (s : FlowStore) (k : Key)
    → FlowEvent.reversal ≢ k.1
    → Dict.get k (reversal_flow uuid now f s).0.by_key ≡ Dict.get k s.by_key
unfolding reversal_flow reversal_of
reversal_flow-by_key uuid now f s k other = elim (Option-cases (find_reversal f.flow_id s)) [
  | inr (g, found) ↦ rw (found, reversal_flow) refl
  | inl absent ↦ elim (Bool-cases f.is_reversal) [
    | inl is ↦ rw (absent, reversal_flow) (rw is refl)
    | inr plain ↦ elim (Bool-cases (is_reversed f.status)) [
      | inl back ↦ rw (absent, reversal_flow) (rw plain (rw back refl))
      | inr open_flow ↦
          rw (absent, reversal_flow)
            (rw plain (
              rw open_flow (
                append-by_key uuid (reversal_of now f) s k (λ e. other (ap (λ (x : Key). x.1) e)))))
    ]
  ]
]

-- Whether the channel says, at the i-th query, that an order is paid.
abbrev pub confirms : Option (ℕ → String → Answer PaymentStatus) → ℕ → String → Bool
confirms none i order_no = false
confirms (some query) i order_no = is_paid (query i order_no)

reversed_as-store :
    (d : ReconciliationDifference) (t : Tally) (x : FlowStore × Reversal)
    → (reversed_as d t x).0 ≡ x.0
reversed_as-store d t (s, recorded f) = refl
reversed_as-store d t (s, value_error) = refl

with_differences-store :
    (d : ReconciliationDifference) (x : FlowStore × AllTreated) → (with_differences d x).0 ≡ x.0
with_differences-store d (s, all_treated ds t) = refl
with_differences-store d (s, all_failed e) = refl

module _ (query_refund : Option (ℕ → String → Answer RefundStatus))
    (meanwhile : ℕ → FlowStore → FlowStore) (draw : ℕ → String) (clock : ℕ → ℕ) (order_no : String)
    (event : FlowEvent) (no_refund : FlowEvent.refund ≢ event)
    (no_reversal : FlowEvent.reversal ≢ event)
    (kept : (i : ℕ) (s : FlowStore)
      → Dict.get (order_no, event) (meanwhile i s).by_key
        ≡ Dict.get (order_no, event) s.by_key) where
  auto_book-unconfirmed :
      (query_order : Option (ℕ → String → Answer PaymentStatus)) (i : ℕ)
      (d : ReconciliationDifference) (t : Tally) (s : FlowStore)
      → confirms query_order i order_no ≡ false
      → Dict.get
          (order_no, event)
          (auto_book query_order query_refund meanwhile draw clock i d t s).0.by_key
        ≡ Dict.get (order_no, event) s.by_key
  unfolding auto_book
  auto_book-unconfirmed none i d t s h = refl
  auto_book-unconfirmed (some q) i d t s h = elim (Bool-cases (is_raised (q i d.out_trade_no))) [
    | inl r ↦ rw r (kept i s)
    | inr answer ↦ elim (Bool-cases (is_paid (q i d.out_trade_no))) [
      | inr unpaid ↦ rw answer (rw unpaid (kept i s))
      | inl paid ↦ elim (Option-cases d.channel_amount) [
        | inl absent ↦ rw answer (rw paid (rw (absent, auto_book) (kept i s)))
        | inr (amount, there) ↦ rw answer (
            rw paid (
              rw (there, auto_book)
                (append-by_key (draw i) (booked_flow d.out_trade_no d.event_type amount "")
                    (meanwhile i s) (order_no, event) (other d.out_trade_no d.event_type paid)
                  ∙ kept i s)))
      ]
    ]
  ]
    where
      apart : true ≢ false
      apart e = cc

      other :
          (trade_no : String) (ev : FlowEvent)
          → is_paid (q i trade_no) ≡ true
          → ◌≢◌ {A = Key} (trade_no, ev) (order_no, event)
      other trade_no ev paid e =
          let same = ap (λ (x : Key). x.0) e in
          absurd (apart (sym paid ∙ ap (λ x. is_paid (q i x)) same ∙ h))

  auto_reverse-by_key :
      (query_order : Option (ℕ → String → Answer PaymentStatus)) (i : ℕ)
      (d : ReconciliationDifference) (t : Tally) (s : FlowStore)
      → Dict.get
          (order_no, event)
          (auto_reverse query_order query_refund meanwhile draw clock i d t s).0.by_key
        ≡ Dict.get (order_no, event) s.by_key
  unfolding auto_reverse
  auto_reverse-by_key none i d t s = refl
  auto_reverse-by_key (some q) i d t s = elim (Bool-cases (is_raised (q i d.out_trade_no))) [
    | inl r ↦ rw r (kept i s)
    | inr answer ↦ elim (Bool-cases (is_paid (q i d.out_trade_no))) [
      | inl paid ↦ rw answer (rw paid (kept i s))
      | inr unpaid ↦
          elim (Option-cases
            (find_by_order_and_event d.out_trade_no d.event_type (meanwhile i s))) [
              | inl absent ↦ rw answer (rw unpaid (rw (absent, auto_reverse) (kept i s)))
              | inr (f, there) ↦ rw answer (
                  rw unpaid (
                    rw (there, auto_reverse)
                      (ap (λ (u : FlowStore). Dict.get (order_no, event) u.by_key)
                          (reversed_as-store d t
                            (reversal_flow (draw i) (clock i) f (meanwhile i s)))
                        ∙ reversal_flow-by_key (draw i) (clock i) f (meanwhile i s)
                            (order_no, event) no_reversal
                        ∙ kept i s)))
            ]
    ]
  ]

  auto_refund_book-by_key :
      (query_order : Option (ℕ → String → Answer PaymentStatus)) (i : ℕ)
      (d : ReconciliationDifference) (t : Tally) (s : FlowStore)
      → Dict.get
          (order_no, event)
          (auto_refund_book query_order query_refund meanwhile draw clock i d t s).0.by_key
        ≡ Dict.get (order_no, event) s.by_key
  unfolding auto_refund_book
  auto_refund_book-by_key query_order i d t s = elim (Option-cases query_refund) [
    | inl absent ↦ rw (absent, auto_refund_book) refl
    | inr (q, there) ↦ elim (Bool-cases (d.out_refund_no == "")) [
      | inl empty ↦ rw (there, auto_refund_book) (rw empty refl)
      | inr named ↦ elim (Bool-cases (is_raised (q i d.out_refund_no))) [
        | inl r ↦ rw (there, auto_refund_book) (rw named (rw r (kept i s)))
        | inr answer ↦ elim (Bool-cases (is_refunded (q i d.out_refund_no))) [
          | inr not_yet ↦
              rw (there, auto_refund_book) (rw named (rw answer (rw not_yet (kept i s))))
          | inl refunded ↦ elim (Option-cases d.local_amount) [
            | inl unknown ↦
                rw (there, auto_refund_book)
                  (rw named (rw answer (rw refunded (rw (unknown, auto_refund_book) (kept i s)))))
            | inr (amount, known) ↦
                rw (there, auto_refund_book)
                  (rw named (
                    rw answer (
                      rw refunded (
                        rw (known, auto_refund_book)
                          (append-by_key (draw i)
                              (booked_flow d.out_trade_no FlowEvent.refund amount d.out_refund_no)
                              (meanwhile i s) (order_no, event)
                              (λ e. no_refund (ap (λ (x : Key). x.1) e))
                            ∙ kept i s)))))
          ]
        ]
      ]
    ]
  ]

  treat-unconfirmed :
      (query_order : Option (ℕ → String → Answer PaymentStatus)) (i : ℕ)
      (d : ReconciliationDifference) (kind : DifferenceType) (t : Tally) (s : FlowStore)
      → confirms query_order i order_no ≡ false
      → Dict.get
          (order_no, event)
          (treat query_order query_refund meanwhile draw clock i d kind t s).0.by_key
        ≡ Dict.get (order_no, event) s.by_key
  treat-unconfirmed q i d DifferenceType.amount_mismatch t s h = refl
  treat-unconfirmed q i d DifferenceType.status_mismatch t s h = refl
  treat-unconfirmed q i d DifferenceType.channel_only t s h = auto_book-unconfirmed q i d t s h
  treat-unconfirmed q i d DifferenceType.local_only t s h = auto_reverse-by_key q i d t s
  treat-unconfirmed q i d DifferenceType.refund_mismatch t s h = auto_refund_book-by_key q i d t s

  handle_from-unconfirmed :
      (query_order : Option (ℕ → String → Answer PaymentStatus)) (i : ℕ)
      (ds : List ReconciliationDifference) (t : Tally) (s : FlowStore)
      → ((j : ℕ) → confirms query_order j order_no ≡ false)
      → Dict.get
          (order_no, event)
          (handle_from query_order query_refund meanwhile draw clock i ds t s).0.by_key
        ≡ Dict.get (order_no, event) s.by_key
  handle_from-unconfirmed q i [] t s h = refl
  handle_from-unconfirmed q i (d ∷ ds) t s h =
      turn (treat q query_refund meanwhile draw clock i d d.diff_type t s)
        (λ u s'. handle_from-unconfirmed q (suc i) ds u s' h)
      ∙ treat-unconfirmed q i d d.diff_type t s (h i)
    where
      turn :
          (x : FlowStore × Treated)
          → ((u : Tally) (s' : FlowStore)
              → Dict.get
                  (order_no, event)
                  (handle_from q query_refund meanwhile draw clock (suc i) ds u s').0.by_key
                ≡ Dict.get (order_no, event) s'.by_key)
          → Dict.get
              (order_no, event)
              (let (s', end) = x in
                elim end as (λ _. FlowStore × AllTreated) [
                  | treated d' t' ↦
                      with_differences d'
                        (handle_from q query_refund meanwhile draw clock (suc i) ds t' s')
                  | failed e ↦ (s', all_failed e)
                ]).0.by_key
            ≡ Dict.get (order_no, event) x.0.by_key
      turn (s', treated d' t') rest =
          ap (λ (u : FlowStore). Dict.get (order_no, event) u.by_key)
            (with_differences-store d'
              (handle_from q query_refund meanwhile draw clock (suc i) ds t' s'))
          ∙ rest t' s'
      turn (s', failed e) rest = refl

  -- Where the channel never confirms that an order is paid, and no other task files a flow of it meanwhile, the
  -- settlement files no flow of the order under an event other than refund and reversal, and drops none.
  pub handle_differences-unconfirmed :
      (query_order : Option (ℕ → String → Answer PaymentStatus))
      (ds : List ReconciliationDifference) (s : FlowStore)
      → ((i : ℕ) → confirms query_order i order_no ≡ false)
      → Dict.get
          (order_no, event)
          (handle_differences query_order query_refund meanwhile draw clock ds s).0.by_key
        ≡ Dict.get (order_no, event) s.by_key
  unfolding handle_differences
  handle_differences-unconfirmed q ds s h =
      handle_from-unconfirmed q 0 ds (record { auto_booked = 0; auto_reversed = 0 }) s h
