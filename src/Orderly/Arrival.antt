-- ===== src/Orderly/Arrival.antt =====
-- New sockets of adbd/src/sockets.c and adbd/src/jdwp_service.c, and the ring of local sockets.
use stm32f429_adbd.Common.{
  ℕ, suc, ◌<◌, ◌^◌, ◌≡◌, ◌≢◌, refl, subst, true, false, Option, none, some, List, [], ◌∷◌, ◌++◌,
  ◌==◌, if◌then◌else◌, arith, Bool-cases, ==_iff, inl, inr, if-branches, same_text, codes,
}
use stm32f429_adbd.Engine.{Socket, State, jdwp_socket_enqueue, jdwp_socket_ready, jdwp_socket_close}
use stm32f429_adbd.Engine.Monad.{M, ok, ◌>>=◌, ◌>>◌, modify, pure, skip, update, calloc}
use stm32f429_adbd.Engine.Session.{>>=-eq-ok}
use stm32f429_adbd.Rings.{member, install_local_socket}
use stm32f429_adbd.Service.{
  Env, local_socket, create_local_socket_pair, create_remote_socket, create_jdwp_service_socket,
  create_jdwp_tracker_service_socket, create_local_service_socket, exits_on_close,
}
use stm32f429_adbd.Orderly.{is_local, IsOrderly, Tidy, Tidy-if, Tidy-pure}
use stm32f429_adbd.Rings.Identifiers.{member-append}
use stm32f429_adbd.Orderly.Ring.{Once-append}
use stm32f429_adbd.Orderly.Basic.{modify-Tidy}

-- A program that keeps the ring orderly, from any state in which it is.
abbrev pub KeepsOrderly : {A : Type 0} → M A → Type 0
KeepsOrderly {A} m = (σ : State) (a : A) (σ' : State) → m σ ≡ ok a σ' → IsOrderly σ → IsOrderly σ'

pub fresh_off : (σ : State) → IsOrderly σ → member σ.fresh σ.locals ≡ false
fresh_off σ o = elim (Bool-cases (member σ.fresh σ.locals)) [
  | inl on ↦ absurd (omega (arith, o.old σ.fresh on))
  | inr off ↦ off
]

pub Tidy-KeepsOrderly : {A : Type 0} (m : M A) → ((s : ℕ) → Tidy s m) → KeepsOrderly m
Tidy-KeepsOrderly m tidy σ a σ' h o = (tidy σ.fresh).keeps σ a σ' h o (fresh_off σ o)

infixr 5 ◌▶◌
pub ◌▶◌ :
    {A B : Type 0} {m : M A} {f : A → M B}
    → KeepsOrderly m
    → ((a : A) → KeepsOrderly (f a))
    → KeepsOrderly (m >>= f)
◌▶◌ {m} {f} hm hf σ b σ'' h o =
    let (a, σ', first, rest) = >>=-eq-ok m f σ b σ'' h in hf a σ' b σ'' rest (hm σ a σ' first o)

-- A socket at a new address joins the ring with the next identifier.
joined-IsOrderly :
    (x : Socket) (heap : ℕ → Option Socket) (σ σ' : State)
    → heap σ.fresh ≡ some x
    → ((q : ℕ) → σ.fresh ≢ q → heap q ≡ σ.heap q)
    → x.id ≡ σ.next_id
    → is_local x.close ≡ true
    → σ'.heap ≡ heap
    → σ'.locals ≡ σ.locals ++ (σ.fresh ∷ [])
    → σ'.next_id ≡ suc σ.next_id
    → σ'.fresh ≡ suc σ.fresh
    → σ'.transports ≡ σ.transports
    → IsOrderly σ
    → IsOrderly σ'
joined-IsOrderly x heap σ σ' new others id kind h l n f t o = record {
  once = rw l (Once-append σ.fresh σ.locals o.once (fresh_off σ o));
  allocated =
      rw (h, l, n)
        λ q on. elim (Bool-cases (σ.fresh == q)) [
          | inl e ↦ (
            x,
            subst (λ k. heap k ≡ some x) ((==_iff σ.fresh q).0 e) new,
            omega (arith, id),
            kind,
          )
          | inr e ↦
              let (y, hy, below, loc) = o.allocated q (earlier q e on) in
              (y, ground (arith, hy, others q (apart q e)), omega (arith, below), loc)
        ];
  distinct =
      rw (h, l)
        λ q r y z on_q on_r hy hz ids. elim (Bool-cases (σ.fresh == q)) [
          | inl e ↦ elim (Bool-cases (σ.fresh == r)) [
            | inl g ↦ ground (arith, e, g)
            | inr g ↦
                let (w, hw, below, _) = o.allocated r (earlier r g on_r) in
                absurd (ground (arith, e, new, id, hy, hz, ids, hw, below, others r (apart r g)))
          ]
          | inr e ↦
              let (v, hv, below, _) = o.allocated q (earlier q e on_q) in
              elim (Bool-cases (σ.fresh == r)) [
                | inl g ↦
                    absurd
                      (ground (arith, g, new, id, hy, hz, ids, hv, below, others q (apart q e)))
                | inr g ↦
                    o.distinct q r y z (earlier q e on_q) (earlier r g on_r)
                      (ground (arith, hy, others q (apart q e)))
                      (ground (arith, hz, others r (apart r g))) ids
              ]
        ];
  old =
      rw (l, f)
        λ q on. elim (Bool-cases (σ.fresh == q)) [
          | inl e ↦ ground (arith, e)
          | inr e ↦ omega (arith, o.old q (earlier q e on))
        ];
  linked_old = rw (t, f) λ k q on. omega (arith, o.linked_old k q on);
  linked_off =
      rw (t, l)
        λ k q on.
          ground
            (arith, o.linked_old k q on, o.linked_off k q on, member-append q σ.fresh σ.locals);
}
  where
    earlier :
        (q : ℕ)
        → (σ.fresh == q) ≡ false
        → member q (σ.locals ++ (σ.fresh ∷ [])) ≡ true
        → member q σ.locals ≡ true
    earlier q e on = ground (arith, e, on, member-append q σ.fresh σ.locals)

    apart : (q : ℕ) → (σ.fresh == q) ≡ false → σ.fresh ≢ q
    apart q e = ground (arith, e)

-- `calloc`, what else is done to the trackers, and `install_local_socket`.
abbrev made : (Socket) → (List ℕ → ℕ → List ℕ) → M ℕ
made x trackers = do
  s ← calloc x
  (λ σ. ok tt (record σ { trackers = trackers σ.trackers s }))
  install_local_socket s
  pure s

made-IsOrderly :
    (x : Socket) (trackers : List ℕ → ℕ → List ℕ) (σ : State) (s : ℕ) (σ' : State)
    → is_local x.close ≡ true
    → suc σ.next_id < 2 ^ 32
    → made x trackers σ ≡ ok s σ'
    → IsOrderly σ
    → IsOrderly σ'
unfolding install_local_socket
made-IsOrderly x trackers σ s σ' kind small h o = elim (Bool-cases σ.locked) [
  | inl held ↦ absurd (ground (arith, h, held))
  | inr unlocked ↦
      let x' : Socket = record x { id = σ.next_id } in
      let heap : ℕ → Option Socket = update (update σ.heap σ.fresh (some x)) σ.fresh (some x') in
      joined-IsOrderly x' heap σ σ' (ground arith) (λ q ne. ground (arith, ne)) refl kind
        (ground (arith, h, unlocked)) (ground (arith, h, unlocked))
        (ground (arith, h, unlocked, small)) (ground (arith, h, unlocked))
        (ground (arith, h, unlocked)) o
]

-- A program that keeps the ring orderly if the counter of identifiers has room for one more.
abbrev pub MayInstall : {A : Type 0} → M A → Type 0
MayInstall {A} m =
    (σ : State) (a : A) (σ' : State)
    → suc σ.next_id < 2 ^ 32
    → m σ ≡ ok a σ'
    → IsOrderly σ
    → IsOrderly σ'

pub MayInstall-bind :
    {A B : Type 0} {m : M A} {f : A → M B}
    → MayInstall m
    → ((a : A) → KeepsOrderly (f a))
    → MayInstall (m >>= f)
MayInstall-bind {m} {f} hm hf σ b σ'' small h o =
    let (a, σ', first, rest) = >>=-eq-ok m f σ b σ'' h in
    hf a σ' b σ'' rest (hm σ a σ' small first o)

pair-MayInstall : (rfd wfd : ℕ) → MayInstall (create_local_socket_pair rfd wfd)
unfolding create_local_socket_pair
pair-MayInstall rfd wfd σ s σ' small h o =
    made-IsOrderly (local_socket rfd wfd) (λ ts _. ts) σ s σ' refl small (ground (arith, h)) o

jdwp-MayInstall : MayInstall create_jdwp_service_socket
unfolding create_jdwp_service_socket
jdwp-MayInstall σ s σ' small h o =
    made-IsOrderly
      (record (local_socket 0 0) {
        enqueue = jdwp_socket_enqueue;
        ready = jdwp_socket_ready;
        close = jdwp_socket_close;
      })
      (λ ts _. ts) σ s σ' refl small (ground (arith, h)) o

tracker-MayInstall : MayInstall create_jdwp_tracker_service_socket
unfolding create_jdwp_tracker_service_socket
tracker-MayInstall σ s σ' small h o =
    made-IsOrderly _ (λ ts s. ts ++ (s ∷ [])) σ s σ' refl small h o

pub pure-KeepsOrderly : {A : Type 0} (a : A) → KeepsOrderly (λ σ. ok a σ)
pure-KeepsOrderly a σ b σ' h o = let same : σ' ≡ σ = ground (arith, h) in rw same o

pub service-MayInstall :
    (env : Env) (name : List ℕ) → MayInstall (create_local_service_socket env name)
unfolding create_local_service_socket
service-MayInstall env name =
    if-branches (MayInstall {A = Option ℕ}) (same_text name (codes "jdwp"))
      (λ _. MayInstall-bind jdwp-MayInstall λ s. pure-KeepsOrderly (some s))
      λ _.
        if-branches (MayInstall {A = Option ℕ}) (same_text name (codes "track-jdwp"))
          (λ _. MayInstall-bind tracker-MayInstall λ s. pure-KeepsOrderly (some s))
          λ _. by_fds (env.service_to_fd name)
  where
    by_fds :
        (fds : Option (ℕ × ℕ))
        → MayInstall {A = Option ℕ} (elim fds [
          | none ↦ pure none
          | some (rfd, wfd) ↦ (do
            s ← create_local_socket_pair rfd wfd
            (if exits_on_close env name
                then modify s (λ x. record x { exit_on_close = true })
                else skip)
            pure (some s))
        ])
    by_fds none = λ σ a σ' small h o. pure-KeepsOrderly none σ a σ' h o
    by_fds (some (rfd, wfd)) = MayInstall-bind (pair-MayInstall rfd wfd) λ s.
        Tidy-KeepsOrderly _ (λ k.
          Tidy-if (exits_on_close env name) (modify-Tidy k s _ (λ x. refl) (λ x h. h))
            (Tidy-pure tt))
        ▶ λ _. pure-KeepsOrderly (some s)

-- A remote socket at a new address, whose callback is linked to its transport.
pub create_remote-KeepsOrderly : (id t : ℕ) → KeepsOrderly (create_remote_socket id t)
unfolding create_remote_socket
create_remote-KeepsOrderly id t σ s σ' h o = record {
  once = rw locals o.once;
  allocated = rw locals λ q on.
      let (y, hy, below, loc) = o.allocated q on in
      (y, ground (arith, h, hy, apart q on), ground (arith, h, below), loc);
  distinct = rw locals λ q r y z on_q on_r hy hz ids.
      o.distinct q r y z on_q on_r (ground (arith, h, hy, apart q on_q))
        (ground (arith, h, hz, apart r on_r)) ids;
  old = rw locals λ q on. ground (arith, h, o.old q on);
  linked_old = λ k q on. elim (Bool-cases (σ.fresh == q)) [
    | inl new ↦ ground (arith, h, new)
    | inr e ↦ ground (arith, h, o.linked_old k q (linked k q e on))
  ];
  linked_off = λ k q on. rw locals (elim (Bool-cases (σ.fresh == q)) [
    | inl new ↦ subst (λ j. member j σ.locals ≡ false) ((==_iff σ.fresh q).0 new) (fresh_off σ o)
    | inr e ↦ o.linked_off k q (linked k q e on)
  ]);
}
  where
    locals : σ'.locals ≡ σ.locals
    locals = ground (arith, h)

    apart : (q : ℕ) → member q σ.locals ≡ true → (σ.fresh == q) ≡ false
    apart q on = ground (arith, o.old q on)

    linked :
        (k q : ℕ)
        → (σ.fresh == q) ≡ false
        → member q (σ'.transports k).disconnects ≡ true
        → member q (σ.transports k).disconnects ≡ true
    linked k q e on = elim (Bool-cases (t == k)) [
      | inl here ↦
          let same : t ≡ k = (==_iff t k).0 here in
          subst (λ j. member q (σ.transports j).disconnects ≡ true) same
            (ground (arith, h, e, on, here, member-append q σ.fresh (σ.transports t).disconnects))
      | inr away ↦ ground (arith, h, on, away)
    ]
