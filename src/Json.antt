-- ===== src/Json.antt =====
-- JSON string literals as the canonical forms use them. `serde_json::to_string` of a `&str` is a
-- parameter; the code relies on a literal showing where it ends.
pub mod Toy
use sealedge.Base.{
  ℕ, ◌+◌, Bytes, Text, List, [], ◌∷◌, ◌++◌, ◌≡◌, decimal, decimal-IsDigit, decimal-injective,
  digits_end, IsDigit, prefix_cut,
}

-- A JSON string literal is self-delimiting: two literals with something after each are equal
-- as bytes only if the strings are equal, and then what follows is equal.
pub record JsonLaws (json_str : Text → Text) : Type 0 where
  pub cut : (a b r s : Text) → json_str a ++ r ≡ json_str b ++ s → (a ≡ b) × (r ≡ s)

-- The same of `serde_json::to_string` of a list of strings.
pub record JsonListLaws (json_list : List Text → Text) : Type 0 where
  pub list_cut :
      (a b : List Text) (r s : Text) → json_list a ++ r ≡ json_list b ++ s → (a ≡ b) × (r ≡ s)

-- A fixed text, then a string literal.
pub text_field :
    (json_str : Text → Text) (laws : JsonLaws json_str) (key : Text) {a b r s : Text}
    → key ++ (json_str a ++ r) ≡ key ++ (json_str b ++ s)
    → (a ≡ b) × (r ≡ s)
text_field json_str laws key {a} {b} {r} {s} e =
    laws.cut a b r s (prefix_cut key (json_str a ++ r) (json_str b ++ s) e)

-- A fixed text, then a number, then a byte that is no digit.
pub number_field :
    (key : Text) (c d : ℕ) {n m : ℕ} {r s : Text}
    → (IsDigit c → ⊥)
    → (IsDigit d → ⊥)
    → key ++ (decimal n ++ c ∷ r) ≡ key ++ (decimal m ++ d ∷ s)
    → (n ≡ m) × (c ∷ r ≡ d ∷ s)
number_field key c d {n} {m} {r} {s} hc hd e =
    let ends : (decimal n ≡ decimal m) × (c ∷ r ≡ d ∷ s) =
      digits_end (decimal n) (decimal m) c d r s (decimal-IsDigit n) (decimal-IsDigit m) hc hd
        (prefix_cut key (decimal n ++ c ∷ r) (decimal m ++ d ∷ s) e) in
    (decimal-injective n m (ends.0), ends.1)
