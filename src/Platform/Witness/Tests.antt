-- ===== src/Platform/Witness/Tests.antt =====
-- Witness decisions at concrete inputs.
use sealedge.Base.{ℕ, ◌≡◌, refl, Text, str, List, [], ◌∷◌, bytes_eq}
use sealedge.Platform.Witness.{
  WitnessEntry, fork, rollback, find_sequence, max_from, max_sequence, decide, decide_found,
  decide_new,
}
use sealedge.Platform.Witness.Ledger.{Explains, decide-Explains}

abbrev entry : ℕ → Text → WitnessEntry
entry sequence tip = record { sequence = sequence; tip = tip; observed_at = str "t" }

abbrev ledger : List WitnessEntry
ledger = entry 2 (str "b3:02") ∷ entry 5 (str "b3:05") ∷ []

decide_gap : decide ledger 4 (str "b3:04") ≡ rollback 5
unfolding decide decide_found decide_new find_sequence max_sequence max_from
decide_gap = refl

decide_fork : decide ledger 5 (str "b3:0f") ≡ fork (str "b3:05")
unfolding decide decide_found find_sequence bytes_eq
decide_fork = refl

decide-Explains_example : Explains ledger 9 (str "b3:09") (decide ledger 9 (str "b3:09"))
decide-Explains_example = decide-Explains ledger 9 (str "b3:09")
