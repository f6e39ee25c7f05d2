-- ===== src/Json/Toy.antt =====
-- A concrete escaping of string literals that meets the laws: quotes around the text, and a
-- backslash before each quote and each backslash in it.
use sealedge.Base.{
  List, prefix_cut, sym, ◌∙◌, ℕ, Text, Bool, [], ◌∷◌, ◌++◌, ◌≡◌, refl, arith, ◌==◌, ◌||◌,
  if◌then◌else◌,
}
use mathlib.Core.List.{append_assoc}
use sealedge.Json.{JsonLaws, JsonListLaws}

abbrev special : ℕ → Bool
special c = c == 34 || c == 92

pub escape : Text → Text
escape [] = []
escape (c ∷ t) = if special c then 92 ∷ c ∷ escape t else c ∷ escape t

unfoldable pub toy_json : Text → Text
unfolding escape
toy_json t = 34 ∷ (escape t ++ 34 ∷ [])

escape_cut :
    (a b r s : Text) → (escape a ++ 34 ∷ []) ++ r ≡ (escape b ++ 34 ∷ []) ++ s → (a ≡ b) × (r ≡ s)
unfolding escape
escape_cut [] [] r s e = (refl, ground arith)
escape_cut [] (y ∷ b) r s e = ground arith
escape_cut (x ∷ a) [] r s e = ground arith
escape_cut (x ∷ a) (y ∷ b) r s e = ground (arith, escape_cut a b r s)

pub toy_json_laws : JsonLaws toy_json
unfolding toy_json
toy_json_laws = record { cut = λ a b r s e. escape_cut a b r s (ground arith) }

-- A list: each literal behind a comma, then the bracket.
unfoldable pub toy_list : List Text → Text
toy_list [] = b']' ∷ []
toy_list (x ∷ xs) = b',' ∷ (toy_json x ++ toy_list xs)

toy_list_cut :
    (a b : List Text) (r s : Text) → toy_list a ++ r ≡ toy_list b ++ s → (a ≡ b) × (r ≡ s)
unfolding toy_list
toy_list_cut [] [] r s e = (refl, prefix_cut (b']' ∷ []) r s e)
toy_list_cut [] (y ∷ b) r s e = ground arith
toy_list_cut (x ∷ a) [] r s e = ground arith
toy_list_cut (x ∷ a) (y ∷ b) r s e =
    let (head, e1) = toy_json_laws.cut x y (toy_list a ++ r) (toy_list b ++ s) (
      sym (append_assoc (toy_json x) (toy_list a) r)
      ∙ prefix_cut (b',' ∷ []) _ _ e
      ∙ append_assoc (toy_json y) (toy_list b) s) in
    let (tail, rest) = toy_list_cut a b r s e1 in (cc (head, tail), rest)

pub toy_list_laws : JsonListLaws toy_list
toy_list_laws = record { list_cut = toy_list_cut }
