-- ===== src/Platform/Witness/Previous.antt =====
-- `prev_entry`: the entry that a receipt names as the one before.
use sealedge.Base.{
  ℕ, ◌≤◌, ◌<◌, ◌≡◌, refl, ◌⊎◌, inl, inr, List, [], ◌∷◌, Option, none, some, leb, ltb, arith, All,
  Has, Bool-cases, ltb→lt,
}
use sealedge.Platform.Witness.{WitnessEntry, latest, prev_from, prev_entry}

-- `prev` is an entry of the ledger with the highest sequence below `sequence`, or there is none
-- below it.
abbrev pub IsPrev : List WitnessEntry → ℕ → Option WitnessEntry → Type 0
IsPrev l sequence none = All (λ e. sequence ≤ e.sequence) l
IsPrev l sequence (some p) =
    Has p l
    × (p.sequence < sequence)
    × All (λ e. (sequence ≤ e.sequence) ⊎ (e.sequence ≤ p.sequence)) l

-- What the fold over the rest of the ledger keeps of the best entry so far.
abbrev BestSoFar : ℕ → Option WitnessEntry → List WitnessEntry → Option WitnessEntry → Type 0
BestSoFar sequence best l none = (best ≡ none) × All (λ e. sequence ≤ e.sequence) l
BestSoFar sequence none l (some p) = IsPrev l sequence (some p)
BestSoFar sequence (some b) l (some p) =
    ((p ≡ b) ⊎ Has p l)
    × (p.sequence < sequence)
    × (b.sequence ≤ p.sequence)
    × All (λ e. (sequence ≤ e.sequence) ⊎ (e.sequence ≤ p.sequence)) l

abbrev BestBelow : ℕ → Option WitnessEntry → Type 0
BestBelow sequence none = Unit
BestBelow sequence (some b) = b.sequence < sequence

-- An entry that is not below `sequence` is passed over.
pass_over :
    (sequence : ℕ) (best : Option WitnessEntry) (e : WitnessEntry) (l : List WitnessEntry)
    (r : Option WitnessEntry)
    → sequence ≤ e.sequence
    → BestSoFar sequence best l r
    → BestSoFar sequence best (e ∷ l) r
pass_over sequence best e l none h (p, q) = (p, (h, q))
pass_over sequence none e l (some r) h (m, lt, q) = (inr m, lt, (inl h, q))
pass_over sequence (some b) e l (some r) h (m, lt, le, q) = (ground arith, lt, le, (inl h, q))

-- One that is takes the place of the best so far, unless that one's sequence is higher.
take_over :
    (sequence : ℕ) (best : Option WitnessEntry) (e : WitnessEntry) (l : List WitnessEntry)
    (r : Option WitnessEntry)
    → BestSoFar sequence (latest best e) l r
    → BestSoFar sequence best (e ∷ l) r
unfolding latest
take_over sequence none e l none h = absurd (cc (h.0))
take_over sequence (some b) e l none h = ground arith
take_over sequence none e l (some r) (m, lt, le, q) = (m, lt, (inr le, q))
take_over sequence (some b) e l (some r) h = elim (Bool-cases (leb b.sequence e.sequence)) [
  | inl later ↦ let (m, lt, le, q) = rw later at h in (inr m, lt, ground arith, (inr le, q))
  | inr earlier ↦
      let (m, lt, le, q) = rw earlier at h in (ground arith, lt, le, (inr (ground arith), q))
]

BestBelow-latest :
    (sequence : ℕ) (best : Option WitnessEntry) (e : WitnessEntry)
    → e.sequence < sequence
    → BestBelow sequence best
    → BestBelow sequence (latest best e)
unfolding latest
BestBelow-latest sequence none e h k = h
BestBelow-latest sequence (some b) e h k = elim (Bool-cases (leb b.sequence e.sequence)) [
  | inl later ↦ rw later h
  | inr earlier ↦ rw earlier k
]

prev_from-BestSoFar :
    (sequence : ℕ) (best : Option WitnessEntry) (l : List WitnessEntry)
    → BestBelow sequence best
    → BestSoFar sequence best l (prev_from sequence best l)
unfolding prev_from
prev_from-BestSoFar sequence none [] h = (refl, tt)
prev_from-BestSoFar sequence (some b) [] h = (inl refl, h, omega arith, tt)
prev_from-BestSoFar sequence best (e ∷ l) h = elim (Bool-cases (ltb e.sequence sequence)) [
  | inl below ↦ rw below (
      take_over sequence best e l _ (
        prev_from-BestSoFar sequence (latest best e) l
          (BestBelow-latest sequence best e (ltb→lt _ _ below) h)))
  | inr above ↦
      rw above
        (pass_over sequence best e l _ (ground arith) (prev_from-BestSoFar sequence best l h))
]

BestSoFar-IsPrev :
    (sequence : ℕ) (l : List WitnessEntry) (r : Option WitnessEntry)
    → BestSoFar sequence none l r
    → IsPrev l sequence r
BestSoFar-IsPrev sequence l none h = h.1
BestSoFar-IsPrev sequence l (some p) h = h

-- The entry before `sequence` is the one with the highest sequence below it.
pub prev_entry-IsPrev :
    (l : List WitnessEntry) (sequence : ℕ) → IsPrev l sequence (prev_entry l sequence)
unfolding prev_entry
prev_entry-IsPrev l sequence =
    BestSoFar-IsPrev sequence l _ (prev_from-BestSoFar sequence none l tt)
