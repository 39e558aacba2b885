-- ===== src/Select.antt =====
-- `qual_match` and `acquire_one_transport` of adbd/src/transport.c. A C string is the list of its
-- characters before the terminating NUL; a null pointer is none. CS_ANY is none.
pub mod Match
pub mod Unique
use stm32f429_adbd.Common.{
  ℕ, Bool, true, false, not, ◌&&◌, ◌||◌, Option, none, some, List, [], ◌∷◌, ◌==◌, leb, codes,
  same_text, if◌then◌else◌,
}
use stm32f429_adbd.Engine.{Transport, TransportType, usb, local, any, host}

abbrev pub cs_offline : ℕ
cs_offline = 0

abbrev pub cs_noperm : ℕ
cs_noperm = 5

unfoldable pub qual_char_is_invalid : ℕ → Bool
qual_char_is_invalid ch =
    if leb b'A' ch && leb ch b'Z'
    then false
    else if leb b'a' ch && leb ch b'z'
    then false
    else if leb b'0' ch && leb ch b'9'
    then false
    else true

-- The second loop of `qual_match`, and its last test.
unfoldable pub match_qual : Bool → List ℕ → List ℕ → Bool
unfolding qual_char_is_invalid
match_qual sanitize [] [] = true
match_qual sanitize [] (c ∷ to_test) = false
match_qual sanitize (ch ∷ qual) [] = false
match_qual sanitize (ch ∷ qual) (c ∷ to_test) =
    (if sanitize && qual_char_is_invalid ch then b'_' else ch) == c
    && match_qual sanitize qual to_test

-- The first loop, and then the second.
unfoldable pub match_prefix : Bool → List ℕ → List ℕ → List ℕ → Bool
unfolding match_qual
match_prefix sanitize [] qual to_test = match_qual sanitize qual to_test
match_prefix sanitize (p ∷ prefix) qual [] = false
match_prefix sanitize (p ∷ prefix) qual (c ∷ to_test) =
    p == c && match_prefix sanitize prefix qual to_test

unfoldable pub is_empty : Option (List ℕ) → Bool
is_empty none = true
is_empty (some []) = true
is_empty (some (c ∷ cs)) = false

unfoldable pub qual_match : List ℕ → List ℕ → Option (List ℕ) → Bool → Bool
unfolding match_prefix is_empty
qual_match [] prefix qual sanitize = is_empty qual
qual_match (c ∷ to_test) prefix none sanitize = false
qual_match (c ∷ to_test) prefix (some qual) sanitize =
    match_prefix sanitize prefix qual (c ∷ to_test)

-- The texts that `error_out` can point to.
pub data AcquireError : Type 0 where
  device_not_found insufficient_permissions more_than_one_device : AcquireError
  more_than_one_emulator more_than_one_device_and_emulator : AcquireError
  device_offline invalid_device_state : AcquireError

-- `s && !strcmp(serial, s)`
unfoldable pub names : List ℕ → Option (List ℕ) → Bool
unfolding same_text
names serial none = false
names serial (some s) = same_text serial s

abbrev product_prefix : List ℕ
product_prefix = codes "product:"

abbrev model_prefix : List ℕ
model_prefix = codes "model:"

abbrev device_prefix : List ℕ
device_prefix = codes "device:"

-- Whether the loop's body takes the transport for a candidate, and what it reports if it has one
-- already.
unfoldable pub candidate : TransportType → Option (List ℕ) → Transport → Option AcquireError
unfolding names qual_match
candidate ttype (some serial) t =
    if names serial t.serial
      || (names serial t.devpath
          || (qual_match serial product_prefix t.product false
              || (qual_match serial model_prefix t.model true
                  || qual_match serial device_prefix t.device false)))
    then some more_than_one_device
    else none
candidate usb none t = elim t.kind [ usb ↦ some more_than_one_device | _ ↦ none ]
candidate local none t = elim t.kind [ local ↦ some more_than_one_emulator | _ ↦ none ]
candidate any none t = some more_than_one_device_and_emulator
candidate host none t = none

pub record Scan : Type 0 where
  pub result : Option (ℕ × Transport)
  pub error : AcquireError
  pub ambiguous : Bool

-- The loop over `transport_list`, from a place of the list on.
unfoldable pub scan :
    TransportType
    → Option (List ℕ)
    → List (ℕ × Transport)
    → Option (ℕ × Transport)
    → AcquireError
    → Scan
unfolding candidate
scan ttype serial [] result error = record { result = result; error = error; ambiguous = false }
scan ttype serial ((a, t) ∷ ts) result error = elim (t.connection_state == cs_noperm) [
  | true ↦ scan ttype serial ts result insufficient_permissions
  | false ↦ elim (candidate ttype serial t) [
    | none ↦ scan ttype serial ts result error
    | some twice ↦ elim result [
      | some _ ↦ record { result = none; error = twice; ambiguous = true }
      | none ↦ scan ttype serial ts (some (a, t)) error
    ]
  ]
]

-- The result of one round and the text of `error_out`, or that the code sleeps and tries again.
pub data Attempt : Type 0 where
  found : ℕ → Attempt
  refused : AcquireError → Attempt
  retry : Attempt

-- The tests on the state of what the loop has found.
unfoldable pub check_state : Option ℕ → ℕ × Transport → Option AcquireError
check_state state (a, t) =
    if t.connection_state == cs_offline then some device_offline else elim state [
      | none ↦ none
      | some wanted ↦ if t.connection_state == wanted then none else some invalid_device_state
    ]

-- `state != CS_ANY && (serial || !ambiguous)`
unfoldable pub tries_again : Option ℕ → Option (List ℕ) → Bool → Bool
tries_again none serial ambiguous = false
tries_again (some state) (some serial) ambiguous = true
tries_again (some state) none ambiguous = not ambiguous

-- One round of `acquire_one_transport`, over the transports of that moment.
unfoldable pub acquire_round :
    Option ℕ → TransportType → Option (List ℕ) → List (ℕ × Transport) → Attempt
unfolding scan check_state tries_again
acquire_round state ttype serial ts =
    let r = scan ttype serial ts none device_not_found in
    elim r.result [
      | none ↦ if tries_again state serial r.ambiguous then retry else refused r.error
      | some (a, t) ↦ elim (check_state state (a, t)) [
        | none ↦ found a
        | some error ↦ if tries_again state serial r.ambiguous then retry else refused error
      ]
    ]

-- The rounds, over what the list is in each of them; none while it still tries.
unfoldable pub acquire_one_transport :
    Option ℕ → TransportType → Option (List ℕ) → List (List (ℕ × Transport)) → Option Attempt
unfolding acquire_round
acquire_one_transport state ttype serial [] = none
acquire_one_transport state ttype serial (ts ∷ rounds) =
    elim (acquire_round state ttype serial ts) [
      | found a ↦ some (found a)
      | refused error ↦ some (refused error)
      | retry ↦ acquire_one_transport state ttype serial rounds
    ]
