-- ===== src/Platform/Witness/Ledger.antt =====
-- What the decisions of `decide` amount to, on any list of ledger entries.
use sealedge.Base.{
  ℕ, suc, ◌≤◌, ◌<◌, ◌≡◌, refl, ◌≢◌, ◌⊎◌, inl, inr, List, [], ◌∷◌, Text, bytes_eq, bytes_eq_iff,
  none, some, Option-cases, leb, leb→le, All-map, sym, arith, All, Has, Bool-cases,
}
use sealedge.Platform.Witness.{
  WitnessEntry, WitnessDecision, recorded, replay, fork, rollback, find_sequence, max_from,
  max_sequence, decide, decide_new, decide_found,
}
use sealedge.Platform.Witness.Previous.{IsPrev, prev_entry-IsPrev}

-- Every entry lies below `sequence`.
abbrev pub AllBelow : ℕ → List WitnessEntry → Type 0
AllBelow sequence = All (λ e. e.sequence < sequence)

max_from-ge : (best : ℕ) (l : List WitnessEntry) → best ≤ max_from best l
unfolding max_from
max_from-ge best [] = omega arith
max_from-ge best (e ∷ l) = ground (arith, max_from-ge e.sequence l, max_from-ge best l)

max_from-AllBelow :
    (best sequence : ℕ) (l : List WitnessEntry) → max_from best l < sequence → AllBelow sequence l
unfolding max_from
max_from-AllBelow best sequence [] h = tt
max_from-AllBelow best sequence (e ∷ l) h = ground (
  arith,
  max_from-ge e.sequence l,
  max_from-ge best l,
  max_from-AllBelow e.sequence sequence l,
  max_from-AllBelow best sequence l,
)

AllBelow-max_from :
    (best sequence : ℕ) (l : List WitnessEntry)
    → best < sequence
    → AllBelow sequence l
    → max_from best l < sequence
unfolding max_from
AllBelow-max_from best sequence [] h a = h
AllBelow-max_from best sequence (e ∷ l) h a =
    ground (arith, AllBelow-max_from e.sequence sequence l, AllBelow-max_from best sequence l)

AllBelow-find_sequence :
    (sequence : ℕ) (l : List WitnessEntry) → AllBelow sequence l → find_sequence sequence l ≡ none
unfolding find_sequence
AllBelow-find_sequence sequence [] a = refl
AllBelow-find_sequence sequence (e ∷ l) a = ground (arith, AllBelow-find_sequence sequence l)

pub find_sequence-Has :
    (sequence : ℕ) (l : List WitnessEntry) (e : WitnessEntry)
    → find_sequence sequence l ≡ some e
    → Has e l × (e.sequence ≡ sequence)
unfolding find_sequence
find_sequence-Has sequence [] e h = cc
find_sequence-Has sequence (x ∷ l) e h = ground (arith, find_sequence-Has sequence l e)

pub find_sequence-none :
    (sequence : ℕ) (l : List WitnessEntry)
    → find_sequence sequence l ≡ none
    → All (λ e. e.sequence ≢ sequence) l
unfolding find_sequence
find_sequence-none sequence [] h = tt
find_sequence-none sequence (x ∷ l) h =
    (λ e. ground arith, find_sequence-none sequence l (ground arith))

-- What each decision says of the ledger, of the sequence and of the tip.
abbrev pub Explains : List WitnessEntry → ℕ → Text → WitnessDecision → Type 0
Explains l sequence tip (recorded prev) = AllBelow sequence l × IsPrev l sequence prev
Explains l sequence tip (replay e prev) =
    Has e l × (e.sequence ≡ sequence) × (e.tip ≡ tip) × IsPrev l sequence prev
Explains l sequence tip (fork existing_tip) =
    (e : WitnessEntry) × Has e l
    × (e.sequence ≡ sequence)
    × (e.tip ≡ existing_tip)
    × (existing_tip ≢ tip)
Explains l sequence tip (rollback max) =
    All (λ e. e.sequence ≢ sequence) l
    × (sequence ≤ max)
    × ((e : WitnessEntry) × Has e l × (e.sequence ≡ max))
    × All (λ e. e.sequence ≤ max) l

max_from-reached :
    (best : ℕ) (l : List WitnessEntry)
    → (max_from best l ≡ best) ⊎ ((e : WitnessEntry) × Has e l × (e.sequence ≡ max_from best l))
unfolding max_from
max_from-reached best [] = inl refl
max_from-reached best (e ∷ l) = elim (Bool-cases (leb best e.sequence)) [
  | inl later ↦ rw later (reached_later (max_from-reached e.sequence l))
  | inr earlier ↦ rw earlier (reached_earlier (max_from-reached best l))
]
  where
    reached_later :
        (max_from e.sequence l ≡ e.sequence)
          ⊎ ((x : WitnessEntry) × Has x l × (x.sequence ≡ max_from e.sequence l))
        → (max_from e.sequence l ≡ best)
          ⊎ ((x : WitnessEntry) × Has x (e ∷ l) × (x.sequence ≡ max_from e.sequence l))
    reached_later (inl p) = inr (e, inl refl, sym p)
    reached_later (inr (x, m, p)) = inr (x, inr m, p)

    reached_earlier :
        (max_from best l ≡ best) ⊎ ((x : WitnessEntry) × Has x l × (x.sequence ≡ max_from best l))
        → (max_from best l ≡ best)
          ⊎ ((x : WitnessEntry) × Has x (e ∷ l) × (x.sequence ≡ max_from best l))
    reached_earlier (inl p) = inl p
    reached_earlier (inr (x, m, p)) = inr (x, inr m, p)

max_from-bound : (best : ℕ) (l : List WitnessEntry) → All (λ e. e.sequence ≤ max_from best l) l
max_from-bound best l =
    All-map (λ e h. omega arith) l (max_from-AllBelow best (suc (max_from best l)) l (omega arith))

-- The highest sequence of a ledger that is not empty stands in it.
max_reached :
    (e : WitnessEntry) (l : List WitnessEntry)
    → (x : WitnessEntry) × Has x (e ∷ l) × (x.sequence ≡ max_from e.sequence l)
max_reached e l = elim (max_from-reached e.sequence l) [
  | inl p ↦ (e, inl refl, sym p)
  | inr (x, m, p) ↦ (x, inr m, p)
]

decide_new-Explains :
    (l : List WitnessEntry) (sequence : ℕ) (tip : Text)
    → find_sequence sequence l ≡ none
    → Explains l sequence tip (decide_new l sequence (max_sequence l))
unfolding decide_new max_sequence
decide_new-Explains [] sequence tip h = (tt, prev_entry-IsPrev [] sequence)
decide_new-Explains (e ∷ l) sequence tip h =
    let max = max_from e.sequence l in
    elim (Bool-cases (leb sequence max)) [
      | inl low ↦ rw low (
        find_sequence-none sequence (e ∷ l) h,
        leb→le sequence max low,
        max_reached e l,
        (max_from-ge e.sequence l, max_from-bound e.sequence l),
      )
      | inr high ↦ rw high (
        (
          ground (arith, max_from-ge e.sequence l),
          max_from-AllBelow e.sequence sequence l (ground arith),
        ),
        prev_entry-IsPrev (e ∷ l) sequence,
      )
    ]

decide_found-Explains :
    (l : List WitnessEntry) (sequence : ℕ) (tip : Text) (e : WitnessEntry)
    → find_sequence sequence l ≡ some e
    → Explains l sequence tip (decide_found l sequence tip (some e))
unfolding decide_found
decide_found-Explains l sequence tip e h =
    let (m, same) = find_sequence-Has sequence l e h in
    elim (Bool-cases (bytes_eq e.tip tip)) [
      | inl hit ↦ rw hit (m, same, (bytes_eq_iff e.tip tip).0 hit, prev_entry-IsPrev l sequence)
      | inr miss ↦ rw miss (e, m, same, refl, λ p. cc (miss, (bytes_eq_iff e.tip tip).1 p))
    ]

-- Each decision is explained: a tip is recorded only above every entry and with the entry before
-- it; it is replayed only when the ledger holds that very sequence and tip; a fork shows an entry
-- of that sequence with another tip; a rollback has no entry of that sequence, and names the
-- highest sequence of the ledger, which is not below the one asked for.
pub decide-Explains :
    (l : List WitnessEntry) (sequence : ℕ) (tip : Text)
    → Explains l sequence tip (decide l sequence tip)
unfolding decide
decide-Explains l sequence tip = elim (Option-cases (find_sequence sequence l)) [
  | inl none_found ↦ rw none_found (decide_new-Explains l sequence tip none_found)
  | inr (e, found) ↦ rw found (decide_found-Explains l sequence tip e found)
]
