-- ===== src/Finality/Examples.antt =====
-- The finality of concrete snapshots, src/qmt_execution_core/finality.py.
use qmt_execution_core.Common.{◌≡◌, ◌≢◌, ◌↔◌, refl, true}
use qmt_execution_core.Domain.{TradeState}
use qmt_execution_core.Machine.Examples.{pre_check, submitted, accepted, accepted-Reachable}
use qmt_execution_core.Finality.{resolved, quarantined, execution_finality}
use qmt_execution_core.Finality.Release.{unresolved_keeps_claim}

submitted_holds : execution_finality submitted ≢ resolved
unfolding execution_finality
submitted_holds h = cc

pre_check_free : execution_finality pre_check ≡ resolved
unfolding execution_finality
pre_check_free = refl

unresolved_keeps_claim_example :
    (accepted.facts.unresolved_order ≡ true → execution_finality accepted ≢ resolved)
    × ((execution_finality accepted ≡ quarantined)
        ↔ ((accepted.state ≡ TradeState.failed) × (accepted.facts.unresolved_order ≡ true)))
unresolved_keeps_claim_example = unresolved_keeps_claim accepted accepted-Reachable
