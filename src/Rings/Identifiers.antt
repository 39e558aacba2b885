-- ===== src/Rings/Identifiers.antt =====
-- Installing a socket and finding it again by its identifier, adbd/src/sockets.c.
use stm32f429_adbd.Common.{
  ℕ, suc, ◌^◌, ◌<◌, ◌≡◌, ◌≢◌, refl, true, false, ◌||◌, Option, none, some, List, [], ◌∷◌, ◌++◌,
  ◌==◌, if◌then◌else◌, arith, Bool-cases, inl, inr,
}
use stm32f429_adbd.Engine.{Socket, State}
use stm32f429_adbd.Engine.Monad.{ok, update}
use stm32f429_adbd.Rings.{member, find_from, find_local_socket, install_local_socket}

-- The sockets of a ring are allocated, and their identifiers are below the next one.
abbrev pub AreNumbered : (ℕ → Option Socket) → List ℕ → ℕ → Type 0
AreNumbered heap ring next =
    (q : ℕ) → member q ring ≡ true → (y : Socket) × (heap q ≡ some y) × (y.id < next)

-- The first socket of the ring with the identifier.
unfoldable pub lookup : (ℕ → Option Socket) → ℕ → List ℕ → Option ℕ
lookup heap id [] = none
lookup heap id (q ∷ ring) =
    let rest = lookup heap id ring in
    elim (heap q) [ none ↦ none | some y ↦ if y.id == id then some q else rest ]

weaken :
    (heap : ℕ → Option Socket) (q : ℕ) (ring : List ℕ) (next : ℕ)
    → AreNumbered heap (q ∷ ring) next
    → AreNumbered heap ring next
unfolding member
weaken heap q ring next n r h = n r (ground (arith, h))

find_from-lookup :
    (id next : ℕ) (ring : List ℕ) (σ : State)
    → AreNumbered σ.heap ring next
    → find_from id ring σ ≡ ok (lookup σ.heap id ring) σ
unfolding find_from lookup member
find_from-lookup id next [] σ n = refl
find_from-lookup id next (q ∷ ring) σ n =
    let (y, h, _) = n q (ground arith) in
    ground (arith, h, find_from-lookup id next ring σ (weaken σ.heap q ring next n))

pub find-lookup :
    (id next : ℕ) (σ : State)
    → σ.locked ≡ false
    → AreNumbered σ.heap σ.locals next
    → find_local_socket id σ ≡ ok (lookup σ.heap id σ.locals) σ
unfolding find_local_socket
find-lookup id next σ unlocked n =
    ground (arith, unlocked, find_from-lookup id next σ.locals (record σ { locked = true }) n)

lookup-append :
    (heap : ℕ → Option Socket) (id next : ℕ) (ring : List ℕ) (p : ℕ) (x : Socket)
    → AreNumbered heap ring next
    → member p ring ≡ false
    → x.id ≡ next
    → lookup (update heap p (some x)) id (ring ++ (p ∷ []))
      ≡ (if id == next then some p else lookup heap id ring)
unfolding lookup member
lookup-append heap id next [] p x n away new = ground (arith, new)
lookup-append heap id next (q ∷ ring) p x n away new =
    let (y, h, below) = n q (ground arith) in
    ground (
      arith,
      h,
      below,
      away,
      lookup-append heap id next ring p x (weaken heap q ring next n) (ground (arith, away)) new,
    )

pub member-append :
    (q p : ℕ) (ring : List ℕ) → member q (ring ++ (p ∷ [])) ≡ member q ring || p == q
unfolding member
member-append q p [] = ground arith
member-append q p (r ∷ ring) = ground (arith, member-append q p ring)

-- The state after the socket is installed.
abbrev installed : ℕ → Socket → State → State
installed p x σ = record σ {
  heap = update σ.heap p (some (record x { id = σ.next_id }));
  locals = σ.locals ++ (p ∷ []);
  next_id = suc σ.next_id;
}

installed-AreNumbered :
    (p : ℕ) (x : Socket) (σ : State)
    → AreNumbered σ.heap σ.locals σ.next_id
    → AreNumbered (installed p x σ).heap (installed p x σ).locals (suc σ.next_id)
installed-AreNumbered p x σ n q on = elim (Bool-cases (p == q)) [
  | inl new ↦ (record x { id = σ.next_id }, ground (arith, new), omega arith)
  | inr old ↦
      let (y, h, below) = n q (ground (arith, member-append q p σ.locals, old, on)) in
      (y, ground (arith, old, h), omega (arith, below))
]

installed-find :
    (p : ℕ) (x : Socket) (σ : State) (id : ℕ)
    → σ.locked ≡ false
    → AreNumbered σ.heap σ.locals σ.next_id
    → member p σ.locals ≡ false
    → find_local_socket id (installed p x σ)
      ≡ ok (if id == σ.next_id then some p else lookup σ.heap id σ.locals) (installed p x σ)
installed-find p x σ id unlocked n away = rw (
  find-lookup id (suc σ.next_id) (installed p x σ) unlocked (installed-AreNumbered p x σ n),
  lookup-append σ.heap id σ.next_id σ.locals p (record x { id = σ.next_id }) n away refl,
)

-- A socket that was not on the ring is found under the identifier that it gets, any other
-- identifier gives what it gave before, and the ring stays numbered, as long as the 32-bit counter
-- does not wrap.
pub find_local_socket-install :
    (p : ℕ) (x : Socket) (σ : State) (id : ℕ) (r : Option ℕ)
    → σ.locked ≡ false
    → AreNumbered σ.heap σ.locals σ.next_id
    → σ.heap p ≡ some x
    → member p σ.locals ≡ false
    → suc σ.next_id < 2 ^ 32
    → id ≢ σ.next_id
    → find_local_socket id σ ≡ ok r σ
    → (σ' : State) × (install_local_socket p σ ≡ ok tt σ')
      × AreNumbered σ'.heap σ'.locals σ'.next_id
      × (find_local_socket σ.next_id σ' ≡ ok (some p) σ')
      × (find_local_socket id σ' ≡ ok r σ')
unfolding install_local_socket
find_local_socket-install p x σ id r unlocked n h away small other was = (
  installed p x σ,
  ground (arith, unlocked, h, small),
  installed-AreNumbered p x σ n,
  ground (arith, installed-find p x σ σ.next_id unlocked n away),
  ground (
    arith,
    other,
    was,
    find-lookup id σ.next_id σ unlocked n,
    installed-find p x σ id unlocked n away,
  ),
)
