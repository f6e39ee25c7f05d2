-- ===== src/Manifest/Canonical/Cuts.antt =====
-- `serialize_canonical`: where a value ends in the canonical text, and how it is cut off the front of
-- two equal texts.
use sealedge.Base.{
  length, ◌==◌, ℕ, zero, suc, ◌≡◌, ◌≢◌, refl, ap, ◌⊎◌, inr, List, [], ◌∷◌, ◌++◌, Text, str, false,
  Option, none, some, All, All-map, decimal, decimal-IsDigit, decimal-injective, starts_with,
  starts_with-append, prefix_cut, arith,
}
use sealedge.Json.{JsonLaws}
use sealedge.Manifest.{Floats}
use sealedge.Manifest.Canonical.{push_opt, push_epoch, separated}

-- A comma or a closing brace comes next.
abbrev pub IsEnd : Text → Type 0
IsEnd [] = ⊥
IsEnd (c ∷ r) = (c ≡ b',') ⊎ (c ≡ b'}')

abbrev pub NoEnd : ℕ → Type 0
NoEnd c = (c ≢ b',') × (c ≢ b'}')

-- Two runs without a comma or a brace, each followed by one: the runs agree, and what follows.
pub runs_end :
    (a b r s : Text)
    → All NoEnd a
    → All NoEnd b
    → IsEnd r
    → IsEnd s
    → a ++ r ≡ b ++ s
    → (a ≡ b) × (r ≡ s)
runs_end [] [] r s ha hb er es e = (refl, e)
runs_end [] (y ∷ b) [] s ha hb er es e = absurd er
runs_end [] (y ∷ b) (c ∷ r) s ha hb er es e = ground arith
runs_end (x ∷ a) [] r [] ha hb er es e = absurd es
runs_end (x ∷ a) [] r (d ∷ s) ha hb er es e = ground arith
runs_end (x ∷ a) (y ∷ b) r s ha hb er es e =
    let ih : (a ≡ b) × (r ≡ s) = runs_end a b r s ha.1 hb.1 er es (cc) in (cc (ih.0), ih.1)

-- A way of writing values under which a value ends at the next comma or brace.
pub record Delimited {A : Type 0} (show : A → Text) : Type 0 where
  pub cut :
      (a b : A) (r s : Text) → IsEnd r → IsEnd s → show a ++ r ≡ show b ++ s → (a ≡ b) × (r ≡ s)

-- `f64`'s `Display` writes digits, a sign, a point or a word, and the shortest text that reads
-- back as the number. The NaNs count as one number.
pub record FloatLaws (fl : Floats) : Type 0 where
  pub no_end : (x : fl.F64) → All NoEnd (fl.display x)
  pub shows : (x y : fl.F64) → fl.display x ≡ fl.display y → x ≡ y

pub decimal-NoEnd : (n : ℕ) → All NoEnd (decimal n)
decimal-NoEnd n =
    All-map (λ c h. ((λ e. omega arith), (λ e. omega arith))) (decimal n) (decimal-IsDigit n)

pub decimal-Delimited : Delimited decimal
decimal-Delimited = record {
  cut = λ a b r s er es e.
      let h : (decimal a ≡ decimal b) × (r ≡ s) =
        runs_end (decimal a) (decimal b) r s (decimal-NoEnd a) (decimal-NoEnd b) er es e in
      (decimal-injective a b (h.0), h.1);
}

pub display-Delimited : (fl : Floats) → FloatLaws fl → Delimited fl.display
display-Delimited fl laws = record {
  cut = λ a b r s er es e.
      let h : (fl.display a ≡ fl.display b) × (r ≡ s) =
        runs_end (fl.display a) (fl.display b) r s (laws.no_end a) (laws.no_end b) er es e in
      (laws.shows a b (h.0), h.1);
}

pub string-Delimited : (json_str : Text → Text) → JsonLaws json_str → Delimited json_str
string-Delimited json_str laws = record { cut = λ a b r s er es e. laws.cut a b r s e }

-- What follows cannot be taken for the optional value under the key, and ends what comes before.
abbrev pub After : Text → Text → Type 0
After key r = IsEnd r × (starts_with r key ≡ false)

module _ {A : Type 0} (show : A → Text) where
  pub opt_cut :
      Delimited show
      → (key : Text) (a b : Option A) (r s : Text) → After key r
      → After key s
      → push_opt show key a r ≡ push_opt show key b s
      → (a ≡ b) × (r ≡ s)
  opt_cut c key none none r s hr hs e = (refl, e)
  opt_cut c key none (some y) r s hr hs e =
      absurd (cc (hr.1, e, starts_with-append key (show y ++ s)))
  opt_cut c key (some x) none r s hr hs e =
      absurd (cc (hs.1, e, starts_with-append key (show x ++ r)))
  opt_cut c key (some x) (some y) r s hr hs e =
      let h : (x ≡ y) × (r ≡ s) =
        c.cut x y r s hr.0 hs.0 (prefix_cut key (show x ++ r) (show y ++ s) e) in
      (ap some (h.0), h.1)

  -- An optional value keeps what is true of what follows it and of its own key.
  pub push_opt-keeps :
      (P : Text → Type 0) (key : Text) (a : Option A) (r : Text)
      → ((t : Text) → P (key ++ t))
      → P r
      → P (push_opt show key a r)
  push_opt-keeps P key none r hk hr = hr
  push_opt-keeps P key (some x) r hk hr = hk (show x ++ r)

push_epoch-suc :
    (n : ℕ) (r : Text)
    → push_epoch (some (suc n)) r ≡ str ",\"key_epoch\":" ++ (decimal (suc n) ++ r)
push_epoch-suc n r = ground arith

pub epoch_cut :
    (a b : Option ℕ) (r s : Text)
    → a ≢ some 0
    → b ≢ some 0
    → push_epoch a (b'}' ∷ r) ≡ push_epoch b (b'}' ∷ s)
    → (a ≡ b) × (r ≡ s)
epoch_cut none none r s ha hb e = (refl, cc)
epoch_cut none (some zero) r s ha hb e = absurd (hb refl)
epoch_cut none (some (suc m)) r s ha hb e = ground arith
epoch_cut (some zero) b r s ha hb e = absurd (ha refl)
epoch_cut (some (suc n)) none r s ha hb e = ground arith
epoch_cut (some (suc n)) (some zero) r s ha hb e = absurd (hb refl)
epoch_cut (some (suc n)) (some (suc m)) r s ha hb e =
    let e' : decimal (suc n) ++ b'}' ∷ r ≡ decimal (suc m) ++ b'}' ∷ s =
      prefix_cut (str ",\"key_epoch\":") _ _
        (cc (push_epoch-suc n (b'}' ∷ r), push_epoch-suc m (b'}' ∷ s), e)) in
    let h : (suc n ≡ suc m) × (b'}' ∷ r ≡ b'}' ∷ s) =
      decimal-Delimited.cut (suc n) (suc m) (b'}' ∷ r) (b'}' ∷ s) (inr refl) (inr refl) e' in
    (ap some (h.0), cc (h.1))

pub separated_cut : (i : ℕ) (r s : Text) → separated i r ≡ separated i s → r ≡ s
separated_cut zero r s e = e
separated_cut (suc i) r s e = ground arith

-- Two texts that begin with different bytes.
pub differ : (c d : ℕ) {r s : Text} → c == d ≡ false → c ∷ r ≡ d ∷ s → ⊥
differ c d h e = ground arith

pub byte_cut : (c : ℕ) {r s : Text} → c ∷ r ≡ c ∷ s → r ≡ s
byte_cut c {r} {s} e = prefix_cut (c ∷ []) r s e

module _ {A : Type 0} (show : A → Text) where
  -- Several optional values in a row, each under its key.
  abbrev pub push_opts : List Text → List (Option A) → Text → Text
  push_opts [] xs rest = rest
  push_opts (key ∷ keys) [] rest = rest
  push_opts (key ∷ keys) (x ∷ xs) rest = push_opt show key x (push_opts keys xs rest)

  pub push_opts-keeps :
      (P : Text → Type 0) (keys : List Text) (xs : List (Option A)) (r : Text)
      → All (λ key. (t : Text) → P (key ++ t)) keys
      → P r
      → P (push_opts keys xs r)
  push_opts-keeps P [] xs r hk hr = hr
  push_opts-keeps P (key ∷ keys) [] r hk hr = hr
  push_opts-keeps P (key ∷ keys) (x ∷ xs) r hk hr =
      push_opt-keeps show P key x _ hk.0 (push_opts-keeps P keys xs r hk.1 hr)

  -- No later key can be taken for an earlier one.
  abbrev pub KeysApart : List Text → Type 0
  KeysApart [] = Unit {0}
  KeysApart (key ∷ keys) = All (λ later. (t : Text) → After key (later ++ t)) keys × KeysApart keys

  pub opts_cut :
      Delimited show
      → (keys : List Text) (xs ys : List (Option A)) (r s : Text) → length xs ≡ length keys
      → length ys ≡ length keys
      → KeysApart keys
      → All (λ key. After key r × After key s) keys
      → push_opts keys xs r ≡ push_opts keys ys s
      → (xs ≡ ys) × (r ≡ s)
  opts_cut c [] [] [] r s ha hb k h e = (refl, e)
  opts_cut c [] [] (y ∷ ys) r s ha hb k h e = absurd (omega arith)
  opts_cut c [] (x ∷ xs) ys r s ha hb k h e = absurd (omega arith)
  opts_cut c (key ∷ keys) [] ys r s ha hb k h e = absurd (omega arith)
  opts_cut c (key ∷ keys) (x ∷ xs) [] r s ha hb k h e = absurd (omega arith)
  opts_cut c (key ∷ keys) (x ∷ xs) (y ∷ ys) r s ha hb k h e =
      let (head, e1) =
        opt_cut show c key x y (push_opts keys xs r) (push_opts keys ys s)
          (push_opts-keeps (After key) keys xs r k.0 h.0.0)
          (push_opts-keeps (After key) keys ys s k.0 h.0.1) e in
      let (tail, rest) = opts_cut c keys xs ys r s (omega arith) (omega arith) k.1 h.1 e1 in
      (cc (head, tail), rest)
