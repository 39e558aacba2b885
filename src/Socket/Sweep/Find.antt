-- ===== src/Socket/Sweep/Find.antt =====
-- What the walk of `close_all_sockets` finds, adbd/src/sockets.c.
use stm32f429_adbd.Common.{
  ℕ, ◌≡◌, refl, subst, ◌∙◌, Bool, true, false, Option, none, some, List, [], ◌∷◌, arith,
}
use stm32f429_adbd.Engine.{Socket, State}
use stm32f429_adbd.Engine.Monad.{M, ok, pure, load, IsFueled, >>=-IsFueled}
use stm32f429_adbd.Engine.Session.{>>=-eq-ok}
use stm32f429_adbd.Rings.{member}
use stm32f429_adbd.Socket.Sweep.{is_of, peer_is_of, belongs_to, pick, find_owned}

-- A socket that is not of the transport, and has no peer of it.
abbrev pub IsForeign : ℕ → (ℕ → Option Socket) → Socket → Type 0
IsForeign t heap x =
    (is_of t x.transport ≡ false)
    × ((p : ℕ) (y : Socket) → x.peer ≡ some p → heap p ≡ some y → is_of t y.transport ≡ false)

-- All sockets of a ring are so.
abbrev pub IsClear : ℕ → (ℕ → Option Socket) → List ℕ → Type 0
IsClear t heap [] = Unit {0}
IsClear t heap (s ∷ ring) =
    ((x : Socket) × (heap s ≡ some x) × IsForeign t heap x) × IsClear t heap ring

belongs_to-IsForeign :
    (t : ℕ) (x : Socket) (σ : State) → belongs_to t x σ ≡ ok false σ → IsForeign t σ.heap x
unfolding belongs_to peer_is_of
belongs_to-IsForeign t x σ h = by_own (is_of t x.transport) refl
  where
    by_own : (b : Bool) → is_of t x.transport ≡ b → IsForeign t σ.heap x
    by_own true e = absurd (ground (arith, e, h))
    by_own false e = (e, λ p y q f. ground (arith, e, h, q, f))

belongs_to-ok :
    (t : ℕ) (x : Socket) (σ : State) (b : Bool) (σ' : State) → belongs_to t x σ ≡ ok b σ' → σ' ≡ σ
unfolding belongs_to peer_is_of
belongs_to-ok t x σ b σ' h = ground (arith, h)

pub load-ok :
    (p : ℕ) (σ : State) (x : Socket) (σ' : State)
    → load p σ ≡ ok x σ'
    → (σ' ≡ σ) × (σ.heap p ≡ some x)
load-ok p σ x σ' h = ground (arith, h)

-- What the loop finds: a member of the ring, or nothing, and it changes nothing.
abbrev pub Finds : ℕ → List ℕ → State → Option ℕ → State → Type 0
Finds t ring σ r σ' =
    (σ' ≡ σ) × ((s : ℕ) → r ≡ some s → member s ring ≡ true) × (r ≡ none → IsClear t σ.heap ring)

found_first :
    (t s : ℕ) (ring : List ℕ) (σ : State) (r : Option ℕ) (σ' : State)
    → pure (some s) σ ≡ ok r σ'
    → Finds t (s ∷ ring) σ r σ'
unfolding member
found_first t s ring σ r σ' h = ground (arith, h)

found_later :
    (t s : ℕ) (ring : List ℕ) (σ : State) (r : Option ℕ) (σ' : State) (x : Socket)
    → σ.heap s ≡ some x
    → belongs_to t x σ ≡ ok false σ
    → Finds t ring σ r σ'
    → Finds t (s ∷ ring) σ r σ'
unfolding member
found_later t s ring σ r σ' x e other (same, inside, clear) = (
  same,
  (λ p q. ground (arith, inside p q)),
  λ n. ((x, e, belongs_to-IsForeign t x σ other), clear n),
)

pub find_owned-ok :
    (t : ℕ) (ring : List ℕ) (σ : State) (r : Option ℕ) (σ' : State)
    → find_owned t ring σ ≡ ok r σ'
    → Finds t ring σ r σ'
unfolding find_owned pick
find_owned-ok t [] σ r σ' h = ground (arith, h)
find_owned-ok t (s ∷ ring) σ r σ' h =
    let (x, σ₁, first, rest) = >>=-eq-ok (load s) _ σ r σ' h in
    let (b, σ₂, second, rest') = >>=-eq-ok (belongs_to t x) _ σ₁ r σ' rest in
    let (e₁, e) = load-ok s σ x σ₁ first in
    let e₂ = belongs_to-ok t x σ₁ b σ₂ second in
    by_owner x e (find_owned-ok t ring σ r σ') b
      (subst (λ v. belongs_to t x v ≡ ok b v) e₁
        (subst (λ v. belongs_to t x σ₁ ≡ ok b v) e₂ second))
      (subst (λ v. pick s (find_owned t ring) b v ≡ ok r σ') (e₂ ∙ e₁) rest')
  where
    by_owner :
        (x : Socket)
        → σ.heap s ≡ some x
        → (find_owned t ring σ ≡ ok r σ' → Finds t ring σ r σ')
        → (b : Bool) → belongs_to t x σ ≡ ok b σ
        → pick s (find_owned t ring) b σ ≡ ok r σ'
        → Finds t (s ∷ ring) σ r σ'
    by_owner x e later true owned go = found_first t s ring σ r σ' go
    by_owner x e later false other go = found_later t s ring σ r σ' x e other (later go)

belongs_to-IsFueled : (t : ℕ) (x : Socket) → IsFueled (belongs_to t x)
unfolding belongs_to peer_is_of
belongs_to-IsFueled t x σ h = ground (arith, h)

pick-IsFueled : (s : ℕ) (next : M (Option ℕ)) (b : Bool) → IsFueled next → IsFueled (pick s next b)
unfolding pick
pick-IsFueled s next true fueled σ h = ground (arith, h)
pick-IsFueled s next false fueled σ h = fueled σ h

pub find_owned-IsFueled : (t : ℕ) (ring : List ℕ) → IsFueled (find_owned t ring)
unfolding find_owned
find_owned-IsFueled t [] σ h = ground (arith, h)
find_owned-IsFueled t (s ∷ ring) σ h =
    >>=-IsFueled (load s) _ (λ σ. ground arith)
      (λ x.
        >>=-IsFueled (belongs_to t x) _ (belongs_to-IsFueled t x)
          (λ b. pick-IsFueled s (find_owned t ring) b (find_owned-IsFueled t ring)))
      σ h
