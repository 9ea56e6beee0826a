-- ===== src/Recovery/Examples.antt =====
-- Observations and searches on concrete orders, src/qmt_execution_core/recovery.py.
use qmt_execution_core.Common.{◌≡◌, ◌↔◌, none, List, [], ◌∷◌, IsOnlyOne}
use qmt_execution_core.Errors.{Error, ok, err, recovery_ambiguous}
use qmt_execution_core.Domain.{buy, BrokerOrderStatus, BrokerOrder}
use qmt_execution_core.Recovery.{find_unique_managed_order}
use qmt_execution_core.Recovery.Identity.{IsManaged, finds_unique_order}

abbrev managed : BrokerOrder
managed = record {
  order_id = 12;
  symbol = "600000.SH";
  side = buy;
  qty = 100;
  filled_qty = 0;
  status = BrokerOrderStatus.working;
  order_remark = "a1";
  client_order_id = "a1";
  strategy_name = "grid";
  average_fill_price = none;
}

abbrev listed : List BrokerOrder
listed = record managed { order_id = 11; order_remark = "x9" } ∷ managed ∷ []

finds_unique_order_example :
    ((o : BrokerOrder)
      → (find_unique_managed_order listed "600000.SH" buy 100 "a1" ≡ ok o)
        ↔ IsOnlyOne (IsManaged "600000.SH" buy 100 "a1") listed o)
    × ((x : Error)
        → find_unique_managed_order listed "600000.SH" buy 100 "a1" ≡ err x
        → x ≡ recovery_ambiguous)
finds_unique_order_example = finds_unique_order listed "600000.SH" buy 100 "a1"
