-- ===== src/Status.antt =====
-- src/qmt_execution_core/miniqmt/status.py: the order status codes of XtQuant.
use qmt_execution_core.Common.{
  ℕ, ◌≡◌, ◌⊎◌, ◌↔◌, ◌<◌, Bool, true, false, Option, none, some, ◌==◌, if◌then◌else◌, arith,
}
use qmt_execution_core.Domain.{BrokerOrderStatus}

pub data QmtOrderStatus : Type 0 where
  unreported wait_reporting reported reported_cancel partsucc_cancel part_cancel : QmtOrderStatus
  canceled part_succ succeeded junk unknown : QmtOrderStatus

-- What the SDK hands over: an `int` that is not negative, or anything else.
pub data RawStatus : Type 0 where
  plain_int : ℕ → RawStatus
  other : RawStatus

-- `QmtOrderStatus(raw_status)`; `none` is the `ValueError`
unfoldable pub order_status : ℕ → Option QmtOrderStatus
order_status n =
    if n == 48
    then some QmtOrderStatus.unreported
    else (if n == 49
        then some QmtOrderStatus.wait_reporting
        else (if n == 50
            then some QmtOrderStatus.reported
            else (if n == 51
                then some QmtOrderStatus.reported_cancel
                else (if n == 52
                    then some QmtOrderStatus.partsucc_cancel
                    else (if n == 53
                        then some QmtOrderStatus.part_cancel
                        else (if n == 54
                            then some QmtOrderStatus.canceled
                            else (if n == 55
                                then some QmtOrderStatus.part_succ
                                else (if n == 56
                                    then some QmtOrderStatus.succeeded
                                    else (if n == 57
                                        then some QmtOrderStatus.junk
                                        else (if n == 255
                                            then some QmtOrderStatus.unknown
                                            else none))))))))))

-- `_STATUS_MAP`
unfoldable pub status_map : QmtOrderStatus → BrokerOrderStatus
status_map QmtOrderStatus.unreported = BrokerOrderStatus.accepted
status_map QmtOrderStatus.wait_reporting = BrokerOrderStatus.accepted
status_map QmtOrderStatus.reported = BrokerOrderStatus.working
status_map QmtOrderStatus.reported_cancel = BrokerOrderStatus.cancel_pending
status_map QmtOrderStatus.partsucc_cancel = BrokerOrderStatus.cancel_pending
status_map QmtOrderStatus.part_cancel = BrokerOrderStatus.partial_cancelled
status_map QmtOrderStatus.canceled = BrokerOrderStatus.cancelled
status_map QmtOrderStatus.part_succ = BrokerOrderStatus.partially_filled
status_map QmtOrderStatus.succeeded = BrokerOrderStatus.filled
status_map QmtOrderStatus.junk = BrokerOrderStatus.rejected
status_map QmtOrderStatus.unknown = BrokerOrderStatus.unknown

mapped : Option QmtOrderStatus → BrokerOrderStatus
mapped none = BrokerOrderStatus.unknown
mapped (some status) = status_map status

unfoldable pub normalize_qmt_order_status : RawStatus → BrokerOrderStatus
unfolding mapped
normalize_qmt_order_status other = BrokerOrderStatus.unknown
normalize_qmt_order_status (plain_int n) = mapped (order_status n)

-- Statuses in which the order will not trade any more.
abbrev pub is_final : BrokerOrderStatus → Bool
is_final BrokerOrderStatus.partial_cancelled = true
is_final BrokerOrderStatus.cancelled = true
is_final BrokerOrderStatus.filled = true
is_final BrokerOrderStatus.rejected = true
is_final _ = false

-- A raw status ends an order exactly for the four codes 53, 54, 56 and 57; it is WORKING only for
-- code 50; and whatever is no code from 48 to 57 is UNKNOWN.
final_codes :
    (n : ℕ)
    → ((is_final (normalize_qmt_order_status (plain_int n)) ≡ true)
        ↔ ((n ≡ 53) ⊎ ((n ≡ 54) ⊎ ((n ≡ 56) ⊎ (n ≡ 57)))))
      × (normalize_qmt_order_status (plain_int n) ≡ BrokerOrderStatus.working → n ≡ 50)
      × ((n < 48) ⊎ (57 < n) → normalize_qmt_order_status (plain_int n) ≡ BrokerOrderStatus.unknown)
unfolding normalize_qmt_order_status mapped order_status status_map
final_codes n = ((λ h. ground arith, λ h. ground arith), λ h. ground arith, λ h. ground arith)
