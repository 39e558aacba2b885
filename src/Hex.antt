-- ===== src/Hex.antt =====
-- `unhex` of adbd/src/sockets.c, and the four hexadecimal digits that `%04x` prints of a length.
use stm32f429_adbd.Common.{
  ℕ, ◌+◌, ◌-◌, ◌*◌, ◌/◌, ◌%◌, ◌^◌, ◌<◌, ◌≡◌, ◌&&◌, Option, none, some, List, [], ◌∷◌, if◌then◌else◌,
  leb, ltb, arith,
}
use stm32f429_adbd.Common.Words.{u32_mod}

-- The `switch` of `unhex`: the digit's value, or none where it returns.
unfoldable pub hex_value : ℕ → Option ℕ
hex_value c =
    if leb b'0' c && leb c b'9'
    then some (c - b'0')
    else if leb b'a' c && leb c b'f'
    then some (c - b'a' + 10)
    else if leb b'A' c && leb c b'F'
    then some (c - b'A' + 10)
    else none

-- `n = (n << 4) | c`: the digit is below 16, so `|` adds it.
unfoldable pub unhex_from : ℕ → List ℕ → ℕ
unhex_from n [] = n
unhex_from n (c ∷ s) = elim (hex_value c) [
  | none ↦ 0xffffffff
  | some d ↦ unhex_from ((n * 16) % u32_mod + d) s
]

-- `unhex`, of the bytes that it is given the length of.
unfoldable pub unhex : List ℕ → ℕ
unhex s = unhex_from 0 s

unfoldable pub hex_digit : ℕ → ℕ
hex_digit d = if ltb d 10 then b'0' + d else b'a' + (d - 10)

-- `%04x`, of a number below 2^16.
unfoldable pub hex4 : ℕ → List ℕ
unfolding hex_digit
hex4 n =
    hex_digit (n / 4096 % 16)
    ∷ hex_digit (n / 256 % 16)
    ∷ hex_digit (n / 16 % 16)
    ∷ hex_digit (n % 16)
    ∷ []

hex_value-digit : (d : ℕ) → d < 16 → hex_value (hex_digit d) ≡ some d
unfolding hex_value hex_digit
hex_value-digit d h = ground arith

-- `unhex` reads back the four digits that are printed of any length below 2^16.
pub unhex-hex4 : (n : ℕ) → n < 2 ^ 16 → unhex (hex4 n) ≡ n
unfolding unhex unhex_from hex4
unhex-hex4 n h = ground (
  arith,
  hex_value-digit (n / 4096 % 16),
  hex_value-digit (n / 256 % 16),
  hex_value-digit (n / 16 % 16),
  hex_value-digit (n % 16),
)
