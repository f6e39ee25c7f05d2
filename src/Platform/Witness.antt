-- ===== src/Platform/Witness.antt =====
-- crates/platform/src/witness.rs: how a chronicle tip is witnessed, and the receipt's body.
pub mod Previous
pub mod Ledger
pub mod Tests
use sealedge.Base.{
  ℕ, List, [], ◌∷◌, Text, bytes_eq, Bool, Option, none, some, ◌==◌, leb, ltb, if◌then◌else◌,
}
use mathlib.Core.Option

pub record WitnessEntry : Type 0 where
  pub sequence : ℕ
  pub tip : Text
  pub observed_at : Text

pub data WitnessDecision : Type 0 where
  recorded : Option WitnessEntry → WitnessDecision
  replay : WitnessEntry → Option WitnessEntry → WitnessDecision
  fork : Text → WitnessDecision
  rollback : ℕ → WitnessDecision

-- `existing.iter().find(|e| e.sequence == sequence)`
unfoldable pub find_sequence : ℕ → List WitnessEntry → Option WitnessEntry
find_sequence sequence [] = none
find_sequence sequence (e ∷ rest) =
    if e.sequence == sequence then some e else find_sequence sequence rest

-- `existing.iter().map(|e| e.sequence).max()`, with the largest so far.
unfoldable pub max_from : ℕ → List WitnessEntry → ℕ
max_from best [] = best
max_from best (e ∷ rest) = max_from (if leb best e.sequence then e.sequence else best) rest

unfoldable pub max_sequence : List WitnessEntry → Option ℕ
max_sequence [] = none
max_sequence (e ∷ rest) = some (max_from e.sequence rest)

-- `Iterator::max_by_key` keeps the later of two equal elements.
unfoldable pub latest : Option WitnessEntry → WitnessEntry → Option WitnessEntry
latest none e = some e
latest (some best) e = if leb best.sequence e.sequence then some e else some best

unfoldable pub prev_from : ℕ → Option WitnessEntry → List WitnessEntry → Option WitnessEntry
prev_from sequence best [] = best
prev_from sequence best (e ∷ rest) =
    prev_from sequence (if ltb e.sequence sequence then latest best e else best) rest

unfoldable pub prev_entry : List WitnessEntry → ℕ → Option WitnessEntry
prev_entry existing sequence = prev_from sequence none existing

unfoldable pub decide_new : List WitnessEntry → ℕ → Option ℕ → WitnessDecision
decide_new existing sequence none = recorded (prev_entry existing sequence)
decide_new existing sequence (some max) =
    if leb sequence max then rollback max else recorded (prev_entry existing sequence)

unfoldable pub decide_found : List WitnessEntry → ℕ → Text → Option WitnessEntry → WitnessDecision
decide_found existing sequence tip none = decide_new existing sequence (max_sequence existing)
decide_found existing sequence tip (some same) =
    if bytes_eq same.tip tip then replay same (prev_entry existing sequence) else fork same.tip

unfoldable pub decide : List WitnessEntry → ℕ → Text → WitnessDecision
unfolding decide_found decide_new
decide existing sequence tip = decide_found existing sequence tip (find_sequence sequence existing)

pub record WitnessReceipt : Type 0 where
  pub device_pub : Text
  pub device_registered : Bool
  pub sequence : ℕ
  pub tip : Text
  pub observed_at : Text
  pub prev_sequence : Option ℕ
  pub prev_tip : Option Text
  pub prev_observed_at : Option Text
  pub jti : Text

-- `WitnessReceipt::build`
unfoldable pub build : Text → Bool → ℕ → Text → Text → Option WitnessEntry → Text → WitnessReceipt
build device_pub device_registered sequence tip observed_at prev jti = record {
  device_pub = device_pub;
  device_registered = device_registered;
  sequence = sequence;
  tip = tip;
  observed_at = observed_at;
  prev_sequence = Option.map (λ p. p.sequence) prev;
  prev_tip = Option.map (λ p. p.tip) prev;
  prev_observed_at = Option.map (λ p. p.observed_at) prev;
  jti = jti;
}
