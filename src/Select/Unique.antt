-- ===== src/Select/Unique.antt =====
-- Which transport a round of `acquire_one_transport` takes, adbd/src/transport.c.
use stm32f429_adbd.Common.{
  ℕ, ◌≡◌, ◌≢◌, ◌↔◌, refl, true, false, Option, none, some, List, [], ◌∷◌, ◌==◌, arith, Option-cases,
  inl, inr, sym, ◌∙◌,
}
use stm32f429_adbd.Engine.{Transport, TransportType}
use stm32f429_adbd.Select.{
  AcquireError, found, retry, candidate, scan, check_state, acquire_round, cs_noperm, cs_offline,
  device_not_found,
}

-- The transports that may be used and fit the request, in the order of the list.
unfoldable pub candidates :
    TransportType → Option (List ℕ) → List (ℕ × Transport) → List (ℕ × Transport)
candidates ttype serial [] = []
candidates ttype serial ((a, t) ∷ ts) =
    let rest = candidates ttype serial ts in
    elim (t.connection_state == cs_noperm) [
      | true ↦ rest
      | false ↦ elim (candidate ttype serial t) [ none ↦ rest | some _ ↦ (a, t) ∷ rest ]
    ]

-- The element of a list of one.
unfoldable pub sole : List (ℕ × Transport) → Option (ℕ × Transport)
sole [] = none
sole (x ∷ []) = some x
sole (x ∷ y ∷ xs) = none

scan-some :
    (ttype : TransportType) (serial : Option (List ℕ)) (ts : List (ℕ × Transport))
    (x : ℕ × Transport) (error : AcquireError)
    → (scan ttype serial ts (some x) error).result ≡ sole (x ∷ candidates ttype serial ts)
unfolding scan candidates sole
scan-some ttype serial [] x error = refl
scan-some ttype serial ((a, t) ∷ ts) x error = ground (
  arith,
  scan-some ttype serial ts x error,
  scan-some ttype serial ts x AcquireError.insufficient_permissions,
)

scan-none :
    (ttype : TransportType) (serial : Option (List ℕ)) (ts : List (ℕ × Transport))
    (error : AcquireError)
    → (scan ttype serial ts none error).result ≡ sole (candidates ttype serial ts)
unfolding scan candidates sole
scan-none ttype serial [] error = refl
scan-none ttype serial ((a, t) ∷ ts) error = ground (
  arith,
  scan-none ttype serial ts error,
  scan-none ttype serial ts AcquireError.insufficient_permissions,
  scan-some ttype serial ts (a, t) error,
)

sole_iff : (l : List (ℕ × Transport)) (x : ℕ × Transport) → (sole l ≡ some x) ↔ (l ≡ x ∷ [])
unfolding sole
sole_iff [] x = ground arith
sole_iff (y ∷ []) x = ground arith
sole_iff (y ∷ z ∷ l) x = ground arith

-- Not offline, and in the state that is asked for, if any.
abbrev pub InState : Option ℕ → Transport → Type 0
InState none t = t.connection_state ≢ cs_offline
InState (some wanted) t = (t.connection_state ≢ cs_offline) × (t.connection_state ≡ wanted)

check_state_iff :
    (state : Option ℕ) (a : ℕ) (t : Transport) → (check_state state (a, t) ≡ none) ↔ InState state t
unfolding check_state
check_state_iff none a t = ground arith
check_state_iff (some w) a t = ground arith

-- A round of `acquire_one_transport` returns a transport exactly if it is the only one on the list
-- that may be used and fits the request, and it is not offline and in the state asked for.
pub acquire_round-found_iff :
    (state : Option ℕ) (ttype : TransportType) (serial : Option (List ℕ))
    (ts : List (ℕ × Transport)) (a : ℕ)
    → (acquire_round state ttype serial ts ≡ found a)
      ↔ ((t : Transport) × (candidates ttype serial ts ≡ (a, t) ∷ []) × InState state t)
unfolding acquire_round
acquire_round-found_iff state ttype serial ts a = (taken, only)
  where
    taken :
        acquire_round state ttype serial ts ≡ found a
        → (t : Transport) × (candidates ttype serial ts ≡ (a, t) ∷ []) × InState state t
    taken h = elim (Option-cases (scan ttype serial ts none device_not_found).result) [
      | inl e ↦ absurd (ground (arith, e, h))
      | inr ((b, t), e) ↦
          let same : b ≡ a = ground (arith, e, h) in
          let fits : check_state state (b, t) ≡ none = ground (arith, e, h) in
          let one : candidates ttype serial ts ≡ (b, t) ∷ [] =
            (sole_iff (candidates ttype serial ts) (b, t)).0
              (sym (scan-none ttype serial ts device_not_found) ∙ e) in
          (t, ground (arith, same, one), (check_state_iff state b t).0 fits)
    ]

    only :
        (t : Transport) × (candidates ttype serial ts ≡ (a, t) ∷ []) × InState state t
        → acquire_round state ttype serial ts ≡ found a
    only (t, sole_one, in_state) = ground (
      arith,
      scan-none ttype serial ts device_not_found,
      sole_iff (candidates ttype serial ts) (a, t),
      check_state_iff state a t,
    )

-- With no state asked for, a round ends in a transport or a refusal, and never tries again.
acquire_round-ne-retry :
    (ttype : TransportType) (serial : Option (List ℕ)) (ts : List (ℕ × Transport))
    → acquire_round none ttype serial ts ≢ retry
unfolding acquire_round
acquire_round-ne-retry ttype serial ts = ground arith
