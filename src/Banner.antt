-- ===== src/Banner.antt =====
-- `parse_banner` of adbd/src/adb.c, with the text functions of the C library that it uses.
pub mod Fields
use stm32f429_adbd.Common.{
  ℕ, Bool, true, false, Option, none, some, List, [], ◌∷◌, ◌++◌, ◌==◌, if◌then◌else◌, codes,
  same_text,
}
use stm32f429_adbd.Engine.{Transport}

-- `strchr`: the text before the first such character, and the text behind it.
unfoldable pub split_at : ℕ → List ℕ → Option (List ℕ × List ℕ)
split_at c [] = none
split_at c (x ∷ text) =
    let rest = split_at c text in
    if x == c
    then some ([], text)
    else elim rest [ none ↦ none | some (before, after) ↦ some (x ∷ before, after) ]

abbrev keep_token : List ℕ → List (List ℕ) → List (List ℕ)
keep_token [] tokens = tokens
keep_token (x ∷ token) tokens = (x ∷ token) ∷ tokens

abbrev extend_token : ℕ → List ℕ × List (List ℕ) → List ℕ × List (List ℕ)
extend_token x (token, tokens) = (x ∷ token, tokens)

-- The characters up to the first separator, and the tokens behind it.
unfoldable pub first_token : ℕ → List ℕ → List ℕ × List (List ℕ)
first_token sep [] = ([], [])
first_token sep (x ∷ text) =
    let rest = first_token sep text in
    if x == sep then ([], keep_token rest.0 rest.1) else extend_token x rest

-- `strtok_r` until it returns NULL: the runs between separators that are not empty.
unfoldable pub tokens : ℕ → List ℕ → List (List ℕ)
unfolding first_token
tokens sep text = let t = first_token sep text in keep_token t.0 t.1

-- `qual_overwrite`
unfoldable pub qual_overwrite : List ℕ → Option (List ℕ)
qual_overwrite [] = none
qual_overwrite (c ∷ src) = some (c ∷ src)

-- The body of the loop over the properties.
unfoldable pub set_property : List ℕ → Transport → Transport
unfolding split_at qual_overwrite
set_property property t = elim (split_at b'=' property) [
  | none ↦ t
  | some (key, value) ↦
      if same_text key (codes "ro.product.name")
      then record t { product = qual_overwrite value }
      else if same_text key (codes "ro.product.model")
      then record t { model = qual_overwrite value }
      else if same_text key (codes "ro.product.device")
      then record t { device = qual_overwrite value }
      else t
]

unfoldable pub set_properties : List (List ℕ) → Transport → Transport
unfolding set_property
set_properties [] t = t
set_properties (p ∷ ps) t = set_properties ps (set_property p t)

abbrev pub cs_bootloader : ℕ
cs_bootloader = 1

abbrev pub cs_device : ℕ
cs_device = 2

abbrev pub cs_host : ℕ
cs_host = 3

abbrev pub cs_recovery : ℕ
cs_recovery = 4

abbrev pub cs_sideload : ℕ
cs_sideload = 6

unfoldable pub state_of_type : List ℕ → ℕ
state_of_type type =
    if same_text type (codes "bootloader")
    then cs_bootloader
    else if same_text type (codes "device")
    then cs_device
    else if same_text type (codes "recovery")
    then cs_recovery
    else if same_text type (codes "sideload")
    then cs_sideload
    else cs_host

-- The type stands before the first colon, the properties behind the second.
unfoldable pub parse_banner : List ℕ → Transport → Transport
unfolding split_at tokens set_properties state_of_type
parse_banner banner t = elim (split_at b':' banner) [
  | none ↦ record t { connection_state = state_of_type banner }
  | some (type, fields) ↦ elim (split_at b':' fields) [
    | none ↦ record t { connection_state = state_of_type type }
    | some (_, properties) ↦
        let t' = set_properties (tokens b';' properties) t in
        record t' { connection_state = state_of_type type }
  ]
]
