-- ===== src/Socket/Sweep/Total.antt =====
-- That `close_all_sockets` ends, and what it leaves on the ring, adbd/src/sockets.c.
use stm32f429_adbd.Common.{
  ℕ, zero, suc, ◌<◌, ◌≡◌, ◌≢◌, refl, sym, ap, subst, ◌∙◌, false, Option, none, some, length, arith,
  ◌⊎◌, inl, inr,
}
use stm32f429_adbd.Engine.{State}
use stm32f429_adbd.Engine.Monad.{
  M, Result, ok, crash, deadlock, exits, no_fuel, >>=-ok, >>=-crash, ◌>>=◌, ◌>>◌, lock, unlock,
}
use stm32f429_adbd.Engine.Session.{>>=-eq-ok}
use stm32f429_adbd.Rings.{member}
use stm32f429_adbd.Socket.{locked, run_close}
use stm32f429_adbd.Socket.Fuel.{run_close_total}
use stm32f429_adbd.Socket.Sweep.{find_owned, close_found, sweep, close_all_sockets}
use stm32f429_adbd.Socket.Sweep.Find.{IsClear, Finds, find_owned-ok, find_owned-IsFueled}
use stm32f429_adbd.Socket.Sweep.Ring.{close-removes}

-- Where a program of two steps runs out of fuel.
>>=-eq-no_fuel :
    {A B : Type 0} (m : M A) (f : A → M B) (σ : State)
    → (m >>= f) σ ≡ no_fuel
    → (m σ ≡ no_fuel) ⊎ ((a : A) × (σ' : State) × (m σ ≡ ok a σ') × (f a σ' ≡ no_fuel))
>>=-eq-no_fuel {A} {B} m f σ h = go (m σ) refl
  where
    go :
        (r : Result A)
        → m σ ≡ r
        → (m σ ≡ no_fuel) ⊎ ((a : A) × (σ' : State) × (m σ ≡ ok a σ') × (f a σ' ≡ no_fuel))
    go (ok a σ') e = inr (a, σ', e, sym (>>=-ok m f σ e) ∙ h)
    go crash e = absurd (ground (arith, sym (>>=-crash m f σ e) ∙ h))
    go deadlock e = let z : deadlock ≡ no_fuel = rw (e, ◌>>=◌) at h in absurd (ground (arith, z))
    go exits e = let z : exits ≡ no_fuel = rw (e, ◌>>=◌) at h in absurd (ground (arith, z))
    go no_fuel e = inl e

close_found-fueled :
    (t : ℕ) (next : M (Unit {0})) (r : Option ℕ) (σ σ₁ : State)
    → Finds t σ.locals σ r σ₁
    → ((σ₂ : State) → length σ₂.locals < length σ.locals → next σ₂ ≢ no_fuel)
    → close_found next r σ₁ ≢ no_fuel
unfolding close_found
close_found-fueled t next none σ σ₁ finds fueled e = ground (arith, e)
close_found-fueled t next (some s) σ σ₁ (same, inside, clear) fueled e =
    elim (>>=-eq-no_fuel (run_close 2 locked s) (λ _. next) σ₁ e) [
      | inl z ↦ (run_close_total 0 locked s σ₁).1 z
      | inr (a, σ₂, close, z) ↦
          let fewer =
            close-removes s σ₁ a σ₂ (ap (λ v. member s v.locals) same ∙ inside s refl) close in
          fueled σ₂ (omega (arith, fewer, ap (λ v. length v.locals) same)) z
    ]

sweep_total : (n t : ℕ) (σ : State) → length σ.locals < n → sweep n t σ ≢ no_fuel
unfolding sweep
sweep_total zero t σ fuel h = omega (arith, fuel)
sweep_total (suc n) t σ fuel h =
    elim (>>=-eq-no_fuel (find_owned t σ.locals) (close_found (sweep n t)) σ h) [
      | inl e ↦ find_owned-IsFueled t σ.locals σ e
      | inr (r, σ₁, found, rest) ↦
          close_found-fueled t (sweep n t) r σ σ₁ (find_owned-ok t σ.locals σ r σ₁ found)
            (λ σ₂ fewer. sweep_total n t σ₂ (omega (arith, fuel, fewer))) rest
    ]

close_found-IsClear :
    (t : ℕ) (next : M (Unit {0})) (r : Option ℕ) (σ σ₁ : State) (a : Unit {0}) (σ' : State)
    → Finds t σ.locals σ r σ₁
    → ((σ₂ : State) (a : Unit {0}) → next σ₂ ≡ ok a σ' → IsClear t σ'.heap σ'.locals)
    → close_found next r σ₁ ≡ ok a σ'
    → IsClear t σ'.heap σ'.locals
unfolding close_found
close_found-IsClear t next none σ σ₁ a σ' (same, inside, clear) rest e =
    let unchanged : σ' ≡ σ₁ = ground (arith, e) in
    subst (λ v. IsClear t v.heap v.locals) (sym (unchanged ∙ same)) (clear refl)
close_found-IsClear t next (some s) σ σ₁ a σ' finds rest e =
    let (b, σ₂, close, z) = >>=-eq-ok (run_close 2 locked s) (λ _. next) σ₁ a σ' e in rest σ₂ a z

sweep-IsClear :
    (n t : ℕ) (σ : State) (a : Unit {0}) (σ' : State)
    → sweep n t σ ≡ ok a σ'
    → IsClear t σ'.heap σ'.locals
unfolding sweep
sweep-IsClear zero t σ a σ' h = absurd (ground (arith, h))
sweep-IsClear (suc n) t σ a σ' h =
    let (r, σ₁, found, rest) =
      >>=-eq-ok (find_owned t σ.locals) (close_found (sweep n t)) σ a σ' h in
    close_found-IsClear t (sweep n t) r σ σ₁ a σ' (find_owned-ok t σ.locals σ r σ₁ found)
      (λ σ₂ b e. sweep-IsClear n t σ₂ b σ' e) rest

-- The rounds suffice, and a return leaves the ring clear of the transport.
abbrev pub EndsClear : ℕ → Result (Unit {0}) → Type 0
EndsClear t (ok a σ') = IsClear t σ'.heap σ'.locals
EndsClear t no_fuel = ⊥
EndsClear t crash = Unit {0}
EndsClear t deadlock = Unit {0}
EndsClear t exits = Unit {0}

-- With one round more than there are local sockets, `close_all_sockets` never runs out of rounds,
-- though each close starts the walk anew; and when it returns, no socket on the ring is of the
-- transport or has a peer of it. A crash, a deadlock or an exit in a close is not excluded.
pub close_all_sockets_lem :
    (n t : ℕ) (σ : State) → length σ.locals < n → EndsClear t (close_all_sockets n t σ)
unfolding close_all_sockets
close_all_sockets_lem n t σ fuel = by_end (close_all_sockets n t σ) refl
  where
    fueled : close_all_sockets n t σ ≢ no_fuel
    fueled h = elim (>>=-eq-no_fuel lock (λ _. sweep n t >> unlock) σ h) [
      | inl e ↦ ground (arith, e)
      | inr (a, σ₁, first, rest) ↦ elim (>>=-eq-no_fuel (sweep n t) (λ _. unlock) σ₁ rest) [
        | inl e ↦
            let kept : σ₁.locals ≡ σ.locals = ground (arith, first) in
            sweep_total n t σ₁ (omega (arith, fuel, ap length kept)) e
        | inr (b, σ₂, swept, e) ↦ ground (arith, e)
      ]
    ]

    clear : (σ' : State) → close_all_sockets n t σ ≡ ok tt σ' → IsClear t σ'.heap σ'.locals
    clear σ' h =
        let (a, σ₁, first, rest) = >>=-eq-ok lock _ σ tt σ' h in
        let (b, σ₂, swept, last) = >>=-eq-ok (sweep n t) (λ _. unlock) σ₁ tt σ' rest in
        let e : σ' ≡ record σ₂ { locked = false } = ground (arith, last) in
        subst (λ v. IsClear t v.heap v.locals) (sym e) (sweep-IsClear n t σ₁ b σ₂ swept)

    by_end : (r : Result (Unit {0})) → close_all_sockets n t σ ≡ r → EndsClear t r
    by_end (ok a σ') e = clear σ' e
    by_end no_fuel e = fueled e
    by_end crash e = tt
    by_end deadlock e = tt
    by_end exits e = tt
