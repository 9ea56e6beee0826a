-- ===== src/Journal/Examples.antt =====
-- An intent on an empty journal, src/qmt_execution_core/journal.py.
use qmt_execution_core.Common.{◌≡◌, refl, inr, some, [], ◌∷◌}
use qmt_execution_core.Errors.{ok, err, journal_integrity_error}
use qmt_execution_core.Domain.{buy, ExecutionRequest}
use qmt_execution_core.Journal.{
  Data, no_data, intent_of, take_last, contains, assert_identity_unused, with_intent, cleared,
}
use qmt_execution_core.Journal.Identity.{identity_not_reused}

abbrev first : ExecutionRequest
first = record {
  client_order_id = "a1";
  symbol = "600000.SH";
  side = buy;
  qty = 100;
  limit_price = 7;
  strategy_id = "grid";
  order_remark = "remark";
}

abbrev second : ExecutionRequest
second = record first { client_order_id = "a2"; qty = 200 }

abbrev taken : Data
taken = record no_data {
  intent = some (intent_of first);
  reservation = some (record { qty = 100; notional = 700 });
  used_client_order_ids = "a1" ∷ [];
  used_order_remarks = "remark" ∷ [];
}

first_enters : with_intent first no_data ≡ ok taken
unfolding with_intent assert_identity_unused contains take_last
first_enters = refl

identity_not_reused_example :
    (assert_identity_unused second taken ≡ err journal_integrity_error)
    × (assert_identity_unused second (cleared taken) ≡ err journal_integrity_error)
identity_not_reused_example = identity_not_reused first second no_data taken first_enters (inr refl)
