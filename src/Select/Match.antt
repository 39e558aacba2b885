-- ===== src/Select/Match.antt =====
-- What `qual_match` accepts.
use stm32f429_adbd.Common.{
  ℕ, ◌≡◌, ◌↔◌, Bool, true, ◌&&◌, some, List, [], ◌∷◌, ◌++◌, map, if◌then◌else◌, arith,
}
use stm32f429_adbd.Select.{qual_char_is_invalid, match_qual, match_prefix, qual_match}

-- A character of a qualifier as the host shows it.
abbrev pub sanitized : Bool → ℕ → ℕ
sanitized sanitize ch = if sanitize && qual_char_is_invalid ch then b'_' else ch

match_qual_iff :
    (sanitize : Bool) (qual to_test : List ℕ)
    → (match_qual sanitize qual to_test ≡ true) ↔ (map (sanitized sanitize) qual ≡ to_test)
unfolding match_qual
match_qual_iff sanitize [] [] = ground arith
match_qual_iff sanitize [] (c ∷ to_test) = ground arith
match_qual_iff sanitize (ch ∷ qual) [] = ground arith
match_qual_iff sanitize (ch ∷ qual) (c ∷ to_test) =
    ground (arith, match_qual_iff sanitize qual to_test)

match_prefix_iff :
    (sanitize : Bool) (prefix qual to_test : List ℕ)
    → (match_prefix sanitize prefix qual to_test ≡ true)
      ↔ (prefix ++ map (sanitized sanitize) qual ≡ to_test)
unfolding match_prefix
match_prefix_iff sanitize [] qual to_test = match_qual_iff sanitize qual to_test
match_prefix_iff sanitize (p ∷ prefix) qual [] = ground arith
match_prefix_iff sanitize (p ∷ prefix) qual (c ∷ to_test) =
    ground (arith, match_prefix_iff sanitize prefix qual to_test)

-- `qual_match` of a text that is not empty accepts exactly the prefix followed by the qualifier,
-- with each character but the ASCII letters and digits read as `_` if it sanitizes.
pub qual_match_iff :
    (c : ℕ) (to_test prefix qual : List ℕ) (sanitize : Bool)
    → (qual_match (c ∷ to_test) prefix (some qual) sanitize ≡ true)
      ↔ (prefix ++ map (sanitized sanitize) qual ≡ c ∷ to_test)
unfolding qual_match
qual_match_iff c to_test prefix qual sanitize = match_prefix_iff sanitize prefix qual (c ∷ to_test)
