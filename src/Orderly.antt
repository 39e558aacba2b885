-- ===== src/Orderly.antt =====
-- What the ring of local sockets of adbd/src/sockets.c relies on, and the programs that keep it.
pub mod Ring
pub mod Basic
pub mod Closing
pub mod Delivery
pub mod Event
pub mod Arrival
pub mod Sweep
pub mod Session
pub mod Packets
pub mod Reachable
use stm32f429_adbd.Common.{
  ℕ, suc, ◌+◌, ◌<◌, ◌≡◌, ◌≢◌, refl, sym, ap, Bool, true, false, Option, none, some, List, [], ◌∷◌,
  ◌==◌, if◌then◌else◌, arith, Bool-cases, ==_iff, inl, inr,
}
use stm32f429_adbd.Engine.{Socket, State, Transport, Close, remote_socket_close, smart_socket_close}
use stm32f429_adbd.Engine.Monad.{
  M, Result, ok, ◌>>=◌, load, modify, store, set_transport, with_transport, free, lock, unlock,
  deref, gets, update,
}
use stm32f429_adbd.Engine.Session.{>>=-eq-ok}
use stm32f429_adbd.Rings.{member}
use stm32f429_adbd.Orderly.Ring.{Once}

-- The close functions of the sockets that stand on the ring.
abbrev pub is_local : Close → Bool
is_local remote_socket_close = false
is_local smart_socket_close = false
is_local _ = true

-- The members of the ring are allocated, as sockets that close like local ones; each stands on it
-- once, and has an identifier of its own, below the next one. The sockets whose callbacks are
-- linked to a transport are not on it.
pub record IsOrderly (σ : State) : Type 0 where
  pub once : Once σ.locals
  pub allocated :
      (q : ℕ)
      → member q σ.locals ≡ true
      → (y : Socket) × (σ.heap q ≡ some y) × (y.id < σ.next_id) × (is_local y.close ≡ true)
  pub distinct :
      (q r : ℕ) (y z : Socket)
      → member q σ.locals ≡ true
      → member r σ.locals ≡ true
      → σ.heap q ≡ some y
      → σ.heap r ≡ some z
      → y.id ≡ z.id
      → q ≡ r
  pub old : (q : ℕ) → member q σ.locals ≡ true → q < σ.fresh
  pub linked_old : (t q : ℕ) → member q (σ.transports t).disconnects ≡ true → q < σ.fresh
  pub linked_off :
      (t q : ℕ) → member q (σ.transports t).disconnects ≡ true → member q σ.locals ≡ false

-- The programs that keep the ring orderly, if a given socket is not on it, and put no socket on it.
pub record Tidy {A : Type 0} (s : ℕ) (m : M A) : Type 0 where
  pub keeps :
      (σ : State) (a : A) (σ' : State)
      → m σ ≡ ok a σ'
      → IsOrderly σ
      → member s σ.locals ≡ false
      → IsOrderly σ'
  pub shrinks :
      (σ : State) (a : A) (σ' : State)
      → m σ ≡ ok a σ'
      → (q : ℕ) → member q σ.locals ≡ false
      → member q σ'.locals ≡ false

-- Those that keep it from any state.
abbrev pub IsTidy : {A : Type 0} → M A → Type 0
IsTidy m = (s : ℕ) → Tidy s m

-- A step, and the program that goes on from it.
infixr 5 ◌▷◌
pub ◌▷◌ :
    {A B : Type 0} {s : ℕ} {m : M A} {f : A → M B}
    → Tidy s m
    → ((a : A) → Tidy s (f a))
    → Tidy s (m >>= f)
◌▷◌ {m} {f} hm hf = record {
  keeps = λ σ b σ'' h o away.
      let (a, σ', first, rest) = >>=-eq-ok m f σ b σ'' h in
      (hf a).keeps σ' b σ'' rest (hm.keeps σ a σ' first o away) (hm.shrinks σ a σ' first _ away);
  shrinks = λ σ b σ'' h q away.
      let (a, σ', first, rest) = >>=-eq-ok m f σ b σ'' h in
      (hf a).shrinks σ' b σ'' rest q (hm.shrinks σ a σ' first q away);
}

module _ {A : Type 0} {s : ℕ} where
  pub Tidy-if : (c : Bool) {m n : M A} → Tidy s m → Tidy s n → Tidy s (if c then m else n)
  Tidy-if true hm hn = hm
  Tidy-if false hm hn = hn

  pub Tidy-option :
      {B : Type 0} (o : Option B) {m : M A} {f : B → M A}
      → Tidy s m
      → ((b : B) → Tidy s (f b))
      → Tidy s (elim o [ none ↦ m | some b ↦ f b ])
  Tidy-option none hm hf = hm
  Tidy-option (some b) hm hf = hf b

  pub Tidy-pure : (a : A) → Tidy s (λ σ. ok a σ)
  Tidy-pure a = record {
    keeps = λ σ b σ' h o away. ground arith;
    shrinks = λ σ b σ' h q away. ground arith;
  }
