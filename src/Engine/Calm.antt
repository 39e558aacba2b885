-- ===== src/Engine/Calm.antt =====
-- Programs that change no session and only take sockets off the ring of local sockets.
use stm32f429_adbd.Common.{
  ℕ, ◌<◌, ◌≡◌, ◌∙◌, ap, Option, none, some, List, arith, ◌⊎◌, inl, inr, length,
}
use stm32f429_adbd.Engine.{Socket, State, Transport}
use stm32f429_adbd.Engine.Monad.{
  M, ok, ◌>>=◌, load, modify, set_transport, with_transport, free, lock, deref,
}
use stm32f429_adbd.Engine.Session.{
  session, sessions, KeepsSessions, >>=-eq-ok, set_transport-KeepsSessions,
}

-- A list that is the same or shorter.
abbrev pub IsShorter : List ℕ → List ℕ → Type 0
IsShorter new old = (new ≡ old) ⊎ (length new < length old)

pub IsShorter-trans : (a b c : List ℕ) → IsShorter b a → IsShorter c b → IsShorter c a
IsShorter-trans a b c (inl e) (inl f) = inl (f ∙ e)
IsShorter-trans a b c (inl e) (inr f) = inr (omega (arith, f, ap length e))
IsShorter-trans a b c (inr e) (inl f) = inr (omega (arith, e, ap length f))
IsShorter-trans a b c (inr e) (inr f) = inr (omega (arith, e, f))

abbrev pub IsCalm : {A : Type 0} → M A → Type 0
IsCalm {A} m =
    (σ : State) (a : A) (σ' : State)
    → m σ ≡ ok a σ'
    → (sessions σ' ≡ sessions σ) × IsShorter σ'.locals σ.locals

pub IsCalm-KeepsSessions : {A : Type 0} (m : M A) → IsCalm m → KeepsSessions m
IsCalm-KeepsSessions m calm σ a σ' h = (calm σ a σ' h).0

pub >>=-IsCalm :
    {A B : Type 0} (m : M A) (f : A → M B) → IsCalm m → ((a : A) → IsCalm (f a)) → IsCalm (m >>= f)
>>=-IsCalm m f hm hf σ b σ'' h =
    let (a, σ', first, rest) = >>=-eq-ok m f σ b σ'' h in
    let (same, shorter) = hm σ a σ' first in
    let (same', shorter') = hf a σ' b σ'' rest in
    (same' ∙ same, IsShorter-trans σ.locals σ'.locals σ''.locals shorter shorter')

pub load-IsCalm : (p : ℕ) → IsCalm (load p)
load-IsCalm p σ a σ' h = ground arith

pub modify-IsCalm : (p : ℕ) (f : Socket → Socket) → IsCalm (modify p f)
modify-IsCalm p f σ a σ' h = ground arith

pub free-IsCalm : (p : ℕ) → IsCalm (free p)
free-IsCalm p σ a σ' h = ground arith

pub lock-IsCalm : IsCalm lock
lock-IsCalm σ a σ' h = ground arith

pub deref-IsCalm : (o : Option ℕ) → IsCalm (deref o)
deref-IsCalm none σ a σ' h = ground arith
deref-IsCalm (some p) σ a σ' h = ground arith

ok_state : {A : Type 0} (x a : A) (σ σ' : State) → ok x σ ≡ ok a σ' → σ' ≡ σ
ok_state x a σ σ' h = ground arith

pub set_transport-IsCalm :
    (t : ℕ) (f : Transport → Transport)
    → ((tr : Transport) → session (f tr) ≡ session tr)
    → IsCalm (set_transport t f)
set_transport-IsCalm t f same σ a σ' h = (
  set_transport-KeepsSessions t f same σ a σ' h,
  inl (ap (λ s. s.locals) (ok_state tt a (with_transport t f σ) σ' h)),
)
