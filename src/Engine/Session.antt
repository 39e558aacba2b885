-- ===== src/Engine/Session.antt =====
-- What a transport's session consists of, and the programs that leave every session alone.
use stm32f429_adbd.Common.{
  ℕ, Bool, ◌≡◌, refl, sym, ◌∙◌, ap, fun_ext, Option, none, some, List, arith, inl, inr, ◌==◌,
  Bool-cases, ==_iff,
}
use stm32f429_adbd.Engine.{Socket, State, Transport}
use stm32f429_adbd.Engine.Monad.{
  M, Result, ok, crash, deadlock, exits, no_fuel, ◌>>=◌, load, modify, set_transport,
  with_transport, free, lock, deref, >>=-ok, >>=-crash,
}

-- Whether it is online, the connection's state, the token and the count of failed attempts.
abbrev pub session : Transport → Bool × ℕ × List ℕ × ℕ
session tr = (tr.online, tr.connection_state, tr.token, tr.failed_auth_attempts)

abbrev pub sessions : State → ℕ → Bool × ℕ × List ℕ × ℕ
sessions σ q = session (σ.transports q)

-- A program that changes no session when it returns.
abbrev pub KeepsSessions : {A : Type 0} → M A → Type 0
KeepsSessions {A} m = (σ : State) (a : A) (σ' : State) → m σ ≡ ok a σ' → sessions σ' ≡ sessions σ

pub >>=-eq-ok :
    {A B : Type 0} (m : M A) (f : A → M B) (σ : State) (b : B) (σ'' : State)
    → (m >>= f) σ ≡ ok b σ''
    → (a : A) × (σ' : State) × (m σ ≡ ok a σ') × (f a σ' ≡ ok b σ'')
>>=-eq-ok {A} {B} m f σ b σ'' h = go (m σ) refl
  where
    go : (r : Result A) → m σ ≡ r → (a : A) × (σ' : State) × (m σ ≡ ok a σ') × (f a σ' ≡ ok b σ'')
    go (ok a σ') e = (a, σ', e, sym (>>=-ok m f σ e) ∙ h)
    go crash e = absurd (ground (arith, sym (>>=-crash m f σ e) ∙ h))
    go deadlock e = let z : deadlock ≡ ok b σ'' = rw (e, ◌>>=◌) at h in absurd (ground (arith, z))
    go exits e = let z : exits ≡ ok b σ'' = rw (e, ◌>>=◌) at h in absurd (ground (arith, z))
    go no_fuel e = let z : no_fuel ≡ ok b σ'' = rw (e, ◌>>=◌) at h in absurd (ground (arith, z))

pub >>=-KeepsSessions :
    {A B : Type 0} (m : M A) (f : A → M B)
    → KeepsSessions m
    → ((a : A) → KeepsSessions (f a))
    → KeepsSessions (m >>= f)
>>=-KeepsSessions m f hm hf σ b σ'' h =
    let (a, σ', first, rest) = >>=-eq-ok m f σ b σ'' h in hf a σ' b σ'' rest ∙ hm σ a σ' first

pub load-KeepsSessions : (p : ℕ) → KeepsSessions (load p)
load-KeepsSessions p σ a σ' h = ground arith

pub modify-KeepsSessions : (p : ℕ) (f : Socket → Socket) → KeepsSessions (modify p f)
modify-KeepsSessions p f σ a σ' h = ground arith

pub free-KeepsSessions : (p : ℕ) → KeepsSessions (free p)
free-KeepsSessions p σ a σ' h = ground arith

pub lock-KeepsSessions : KeepsSessions lock
lock-KeepsSessions σ a σ' h = ground arith

pub deref-KeepsSessions : (o : Option ℕ) → KeepsSessions (deref o)
deref-KeepsSessions none σ a σ' h = ground arith
deref-KeepsSessions (some p) σ a σ' h = ground arith

ok_state : {A : Type 0} (x a : A) (σ σ' : State) → ok x σ ≡ ok a σ' → σ' ≡ σ
ok_state x a σ σ' h = ground arith

sessions-with_transport :
    (t : ℕ) (f : Transport → Transport) (σ : State)
    → ((tr : Transport) → session (f tr) ≡ session tr)
    → sessions (with_transport t f σ) ≡ sessions σ
sessions-with_transport t f σ same = fun_ext λ q. elim (Bool-cases (t == q)) [
  | inl e ↦
      let t≡q : t ≡ q = (==_iff t q).0 e in
      rw e (same (σ.transports t) ∙ ap (λ k. session (σ.transports k)) t≡q)
  | inr e ↦ rw e
]

pub set_transport-KeepsSessions :
    (t : ℕ) (f : Transport → Transport)
    → ((tr : Transport) → session (f tr) ≡ session tr)
    → KeepsSessions (set_transport t f)
set_transport-KeepsSessions t f same σ a σ' h =
    ap sessions (ok_state tt a (with_transport t f σ) σ' h) ∙ sessions-with_transport t f σ same
