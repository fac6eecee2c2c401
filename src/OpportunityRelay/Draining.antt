-- ===== src/OpportunityRelay/Draining.antt =====
-- The relay of opportunity-service empties its part of the outbox.
use arbibot.Base.{ℕ, ◌+◌, ◌≤◌, ◌≡◌, false, List, [], ◌∷◌, sum_of, All, ◌⊎◌}
use arbibot.OpportunityRelay.{RelayDb, Relay, process_batch}
use arbibot.OpportunityRelay.Claims.{Claimable}
use arbibot.OpportunityRelay.Rounds.{due, patience, OneRowPerId, attempts_in_all}

abbrev weight : Relay → RelayDb → ℕ
weight relay db = sum_of (patience (attempts_in_all relay)) db.outbox

-- What is left after some rounds: nothing that is due, or less by a unit for each.
abbrev Progress : Relay → ℕ → RelayDb → RelayDb → Type 0
Progress relay n db db' =
    OneRowPerId db'.outbox
    × Claimable db'
    × (All (λ r. due r ≡ false) db'.outbox ⊎ (weight relay db' + n ≤ weight relay db))

-- The ticks of the timer, each with the most rows that it takes.
unfoldable pub process_batches : Relay → List ℕ → RelayDb → RelayDb
unfolding process_batch
process_batches relay [] db = db
process_batches relay (n ∷ ns) db = process_batches relay ns (process_batch relay n db)
