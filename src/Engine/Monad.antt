-- ===== src/Engine/Monad.antt =====
-- Programs over the engine's state: they return, use memory that is not theirs, wait for a lock
-- that they hold, exit, or run out of fuel.
use stm32f429_adbd.Common.{
  ◌≢◌, ℕ, suc, ◌≡◌, refl, true, false, Option, none, some, List, [], ◌∷◌, ◌++◌, ◌==◌, if◌then◌else◌,
  arith,
}
use stm32f429_adbd.Engine.{Socket, Transport, State}

pub data Result {ℓ} (A : Type ℓ) : Type ℓ where
  ok : A → State → Result A
  crash deadlock exits no_fuel : Result A

abbrev pub M : Type 0 → Type 0
M A = State → Result A

infixl 5 ◌>>=◌ ◌>>◌
abbrev pub ◌>>=◌ : {A B : Type 0} → M A → (A → M B) → M B
◌>>=◌ m f s = elim (m s) [
  | ok a s' ↦ f a s'
  | crash ↦ crash
  | deadlock ↦ deadlock
  | exits ↦ exits
  | no_fuel ↦ no_fuel
]

abbrev pub ◌>>◌ : {B : Type 0} → M (Unit {0}) → M B → M B
m >> k = m >>= λ _. k

abbrev pub pure : {A : Type 0} → A → M A
pure a s = ok a s

abbrev pub skip : M (Unit {0})
skip s = ok tt s

abbrev pub exit : {A : Type 0} → M A
exit s = exits

abbrev pub gets : {A : Type 0} → (State → A) → M A
gets f s = ok (f s) s

-- The target of a pointer: NULL is none.
abbrev pub deref : Option ℕ → M ℕ
deref none s = crash
deref (some p) s = ok p s

abbrev pub update {ℓ} : {A : Type ℓ} → (ℕ → A) → ℕ → A → ℕ → A
update f p v q = if p == q then v else f q

abbrev pub load : ℕ → M Socket
load p s = elim (s.heap p) [ none ↦ crash | some x ↦ ok x s ]

abbrev pub store : ℕ → Socket → M (Unit {0})
store p x s = elim (s.heap p) [
  | none ↦ crash
  | some _ ↦ ok tt (record s { heap = update s.heap p (some x) })
]

abbrev pub free : ℕ → M (Unit {0})
free p s = elim (s.heap p) [
  | none ↦ crash
  | some _ ↦ ok tt (record s { heap = update s.heap p none })
]

abbrev pub modify : ℕ → (Socket → Socket) → M (Unit {0})
modify p f = do x ← load p; store p (f x)

abbrev pub calloc : Socket → M ℕ
calloc x s = ok s.fresh (record s { heap = update s.heap s.fresh (some x); fresh = suc s.fresh })

-- `adb_mutex_lock`: the mutex is not recursive.
abbrev pub lock : M (Unit {0})
lock s = elim s.locked [ true ↦ deadlock | false ↦ ok tt (record s { locked = true }) ]

abbrev pub unlock : M (Unit {0})
unlock s = ok tt (record s { locked = false })

abbrev pub get_transport : ℕ → M Transport
get_transport t s = ok (s.transports t) s

abbrev pub with_transport : ℕ → (Transport → Transport) → State → State
with_transport t f s = record s { transports = update s.transports t (f (s.transports t)) }

abbrev pub set_transport : ℕ → (Transport → Transport) → M (Unit {0})
set_transport t f s = ok tt (with_transport t f s)

-- `adb_close`
abbrev pub close_fd : ℕ → M (Unit {0})
close_fd fd s = ok tt (record s { closed = s.closed ++ (fd ∷ []) })

abbrev pub log_write : ℕ → List ℕ → M (Unit {0})
log_write fd bytes s = ok tt (record s { written = s.written ++ ((fd, bytes) ∷ []) })

-- How a program goes on when its first step has returned, and when it cannot.
pub >>=-ok :
    {A B : Type 0} (m : M A) (f : A → M B) (σ : State) {σ' : State} {a : A}
    → m σ ≡ ok a σ'
    → (m >>= f) σ ≡ f a σ'
>>=-ok m f σ e = rw (e, ◌>>=◌)

pub >>=-crash :
    {A B : Type 0} (m : M A) (f : A → M B) (σ : State) → m σ ≡ crash → (m >>= f) σ ≡ crash
>>=-crash m f σ e = rw (e, ◌>>=◌)

pub update_self {ℓ} : {A : Type ℓ} (f : ℕ → A) (p : ℕ) (v : A) → update f p v p ≡ v
update_self f p v = ground arith

pub update_ne {ℓ} : {A : Type ℓ} (f : ℕ → A) (p q : ℕ) (v : A) → p ≢ q → update f p v q ≡ f q
update_ne f p q v h = ground arith

pub load-eq-ok : (p : ℕ) (σ : State) {x : Socket} → σ.heap p ≡ some x → load p σ ≡ ok x σ
load-eq-ok p σ h = rw (h, load)

pub load-eq-crash : (p : ℕ) (σ : State) → σ.heap p ≡ none → load p σ ≡ crash
load-eq-crash p σ h = rw (h, load)

pub modify-eq-ok :
    (p : ℕ) (f : Socket → Socket) (σ : State) {x : Socket}
    → σ.heap p ≡ some x
    → modify p f σ ≡ ok tt (record σ { heap = update σ.heap p (some (f x)) })
modify-eq-ok p f σ h = ground arith

pub modify-eq-crash :
    (p : ℕ) (f : Socket → Socket) (σ : State) → σ.heap p ≡ none → modify p f σ ≡ crash
modify-eq-crash p f σ h = ground arith

-- A program that never runs out of fuel.
abbrev pub IsFueled : {A : Type 0} → M A → Type 0
IsFueled m = (σ : State) → m σ ≢ no_fuel

pub >>=-IsFueled :
    {A B : Type 0} (m : M A) (f : A → M B)
    → IsFueled m
    → ((a : A) → IsFueled (f a))
    → IsFueled (m >>= f)
>>=-IsFueled {A} {B} m f hm hf σ = go (m σ) refl
  where
    go : (r : Result A) → m σ ≡ r → (m >>= f) σ ≢ no_fuel
    go (ok a σ') e = rw (>>=-ok m f σ e) (hf a σ')
    go crash e = rw (>>=-crash m f σ e) (λ h. cc)
    go deadlock e = rw (e, ◌>>=◌) (λ h. cc)
    go exits e = rw (e, ◌>>=◌) (λ h. cc)
    go no_fuel e = absurd (hm σ e)

-- The program returns, and what it returns has the property.
abbrev pub Returns : {A : Type 0} → Result A → (A → State → Type 0) → Type 0
Returns (ok a s) P = P a s
Returns crash P = ⊥
Returns deadlock P = ⊥
Returns exits P = ⊥
Returns no_fuel P = ⊥
