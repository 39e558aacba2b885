-- ===== src/Socket/Sweep/Ring.antt =====
-- What a close takes off the ring of local sockets, adbd/src/sockets.c.
use stm32f429_adbd.Common.{ℕ, ◌<◌, ◌≡◌, ap, subst, ◌∙◌, true, none, some, length, arith, inl, inr}
use stm32f429_adbd.Engine.{State}
use stm32f429_adbd.Engine.Monad.{M, ok, ◌>>=◌, ◌>>◌, skip, load, modify}
use stm32f429_adbd.Engine.Session.{>>=-eq-ok}
use stm32f429_adbd.Engine.Calm.{IsShorter}
use stm32f429_adbd.Rings.{member, remove_socket}
use stm32f429_adbd.Socket.{
  locked, run_close, local_socket_close_locked, finish_close, local_socket_destroy, detach,
  peer_entry,
}
use stm32f429_adbd.Socket.Calm.{
  unlink-member, finish_close-IsCalm, cut_local-IsCalm, detach-IsCalm, run_close-IsCalm,
}
use stm32f429_adbd.Socket.Sweep.Find.{load-ok}

finish_close-removes :
    (s : ℕ) (σ : State) (a : Unit {0}) (σ' : State)
    → member s σ.locals ≡ true
    → finish_close s σ ≡ ok a σ'
    → length σ'.locals < length σ.locals
unfolding finish_close local_socket_destroy remove_socket
finish_close-removes s σ a σ' inside h = ground (arith, inside, h, unlink-member s σ.locals inside)

-- A close that returns has taken the socket off the ring.
pub close-removes :
    (s : ℕ) (σ : State) (a : Unit {0}) (σ' : State)
    → member s σ.locals ≡ true
    → run_close 2 locked s σ ≡ ok a σ'
    → length σ'.locals < length σ.locals
unfolding run_close local_socket_close_locked
close-removes s σ a σ' inside h =
    let (x, σ₁, first, rest) = >>=-eq-ok (load s) _ σ a σ' h in
    let cut_peer : M (Unit {0}) = elim x.peer [
      | none ↦ skip
      | some p ↦ (do
        y ← load p
        detach (run_close 1) (peer_entry y.close) p
        modify s (λ z. record z { peer = none }))
    ] in
    let (b, σ₂, cut, last) = >>=-eq-ok cut_peer (λ _. finish_close s) σ₁ a σ' rest in
    let (same, shorter) =
      cut_local-IsCalm (detach (run_close 1)) (detach-IsCalm (run_close 1) (run_close-IsCalm 1)) s
        x.peer σ₁ b σ₂ cut in
    let shorter' = subst (λ v. IsShorter σ₂.locals v.locals) (load-ok s σ x σ₁ first).0 shorter in
    elim shorter' [
      | inl e ↦
          let fewer = finish_close-removes s σ₂ a σ' (ap (member s) e ∙ inside) last in
          omega (arith, fewer, ap length e)
      | inr lt ↦ elim (finish_close-IsCalm s σ₂ a σ' last).1 [
        | inl e ↦ omega (arith, lt, ap length e)
        | inr lt' ↦ omega (arith, lt, lt')
      ]
    ]
