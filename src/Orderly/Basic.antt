-- ===== src/Orderly/Basic.antt =====
-- The single steps of the programs of adbd/src/sockets.c that keep the ring orderly.
use stm32f429_adbd.Common.{
  ℕ, ◌≡◌, refl, ap, subst, true, false, Option, none, some, List, ◌==◌, ◌||◌, arith, Bool-cases,
  ==_iff, inl, inr,
}
use stm32f429_adbd.Engine.{Socket, State, Transport}
use stm32f429_adbd.Engine.Monad.{
  M, ok, load, modify, set_transport, with_transport, free, lock, deref, update,
}
use stm32f429_adbd.Rings.{member, unlink, remove_socket}
use stm32f429_adbd.Orderly.{is_local, IsOrderly, Tidy}
use stm32f429_adbd.Orderly.Ring.{member-unlink, unlink_off, Once-unlink, unlink_gone}

-- A program that changes neither the heap nor the rings, the allocator or the transports.
abbrev pub IsAside : {A : Type 0} → M A → Type 0
IsAside {A} m =
    (σ : State) (a : A) (σ' : State)
    → m σ ≡ ok a σ'
    → (σ'.heap ≡ σ.heap)
      × (σ'.locals ≡ σ.locals)
      × (σ'.next_id ≡ σ.next_id)
      × (σ'.fresh ≡ σ.fresh)
      × (σ'.transports ≡ σ.transports)

same-IsOrderly :
    (σ σ' : State)
    → σ'.heap ≡ σ.heap
    → σ'.locals ≡ σ.locals
    → σ'.next_id ≡ σ.next_id
    → σ'.fresh ≡ σ.fresh
    → σ'.transports ≡ σ.transports
    → IsOrderly σ
    → IsOrderly σ'
same-IsOrderly σ σ' h l n f t o = record {
  once = rw l o.once;
  allocated = rw (h, l, n) o.allocated;
  distinct = rw (h, l) o.distinct;
  old = rw (l, f) o.old;
  linked_old = rw (t, f) o.linked_old;
  linked_off = rw (t, l) o.linked_off;
}

pub IsAside-Tidy : {A : Type 0} (s : ℕ) (m : M A) → IsAside m → Tidy s m
IsAside-Tidy s m aside = record {
  keeps =
      λ σ a σ' e o away. let (h, l, n, f, t) = aside σ a σ' e in same-IsOrderly σ σ' h l n f t o;
  shrinks = λ σ a σ' e q away. let (h, l, n, f, t) = aside σ a σ' e in rw l away;
}

pub load-Tidy : (s p : ℕ) → Tidy s (load p)
load-Tidy s p = IsAside-Tidy s (load p) λ σ a σ' h. ground arith

pub lock-Tidy : (s : ℕ) → Tidy s lock
lock-Tidy s = IsAside-Tidy s lock λ σ a σ' h. ground arith

pub deref-Tidy : (s : ℕ) (o : Option ℕ) → Tidy s (deref o)
deref-Tidy s o = IsAside-Tidy s (deref o) λ σ a σ' h. ground arith

-- A heap in which one socket has changed, but neither its identifier nor the kind of its close.
changed-IsOrderly :
    (p : ℕ) (x x' : Socket) (σ : State)
    → σ.heap p ≡ some x
    → x'.id ≡ x.id
    → (is_local x.close ≡ true → is_local x'.close ≡ true)
    → IsOrderly σ
    → IsOrderly (record σ { heap = update σ.heap p (some x') })
changed-IsOrderly p x x' σ h same kind o = record {
  once = o.once;
  allocated = λ q on.
      let (y, hy, below, loc) = o.allocated q on in
      elim (Bool-cases (p == q)) [
        | inl e ↦
            let same_socket : x ≡ y = ground (arith, e, h, hy) in
            (
              x',
              ground (arith, e),
              ground (arith, same, same_socket, below),
              kind (ground (arith, same_socket, loc)),
            )
        | inr e ↦ (y, ground (arith, e, hy), below, loc)
      ];
  distinct = λ q r y z on_q on_r hy hz ids. elim (Bool-cases (p == q)) [
    | inl e ↦ elim (Bool-cases (p == r)) [
      | inl f ↦ ground (arith, e, f)
      | inr f ↦
          o.distinct q r x z on_q on_r (ground (arith, e, h)) (ground (arith, f, hz))
            (ground (arith, e, hy, same, ids))
    ]
    | inr e ↦ elim (Bool-cases (p == r)) [
      | inl f ↦
          o.distinct q r y x on_q on_r (ground (arith, e, hy)) (ground (arith, f, h))
            (ground (arith, f, hz, same, ids))
      | inr f ↦ o.distinct q r y z on_q on_r (ground (arith, e, hy)) (ground (arith, f, hz)) ids
    ]
  ];
  old = o.old;
  linked_old = o.linked_old;
  linked_off = o.linked_off;
}

pub modify-Tidy :
    (s p : ℕ) (f : Socket → Socket)
    → ((x : Socket) → (f x).id ≡ x.id)
    → ((x : Socket) → is_local x.close ≡ true → is_local (f x).close ≡ true)
    → Tidy s (modify p f)
modify-Tidy s p f same kind = record {
  keeps = λ σ a σ' e o away.
      elim (σ.heap p) as (λ c. σ.heap p ≡ c → IsOrderly σ') [
        | none ↦ λ h. absurd (ground (arith, e, h))
        | some x ↦ λ h.
            let after : σ' ≡ record σ { heap = update σ.heap p (some (f x)) } =
              ground (arith, e, h) in
            rw after (changed-IsOrderly p x (f x) σ h (same x) (kind x) o)
      ]
        refl;
  shrinks = λ σ a σ' e q away. ground (arith, e, away);
}

-- A socket that is not on the ring may be freed.
freed-IsOrderly :
    (p : ℕ) (σ : State)
    → member p σ.locals ≡ false
    → IsOrderly σ
    → IsOrderly (record σ { heap = update σ.heap p none })
freed-IsOrderly p σ off o = record {
  once = o.once;
  allocated = λ q on.
      let (y, hy, below, loc) = o.allocated q on in
      (
        y,
        elim (Bool-cases (p == q)) [
          | inl e ↦ absurd (ground (arith, on, off, ap (λ k. member k σ.locals) ((==_iff p q).0 e)))
          | inr e ↦ ground (arith, e, hy)
        ],
        below,
        loc,
      );
  distinct = λ q r y z on_q on_r hy hz ids.
      o.distinct q r y z on_q on_r (ground (arith, hy)) (ground (arith, hz)) ids;
  old = o.old;
  linked_old = o.linked_old;
  linked_off = o.linked_off;
}

pub free-Tidy : (s : ℕ) → Tidy s (free s)
free-Tidy s = record {
  keeps = λ σ a σ' e o away.
      let after : σ' ≡ record σ { heap = update σ.heap s none } = ground (arith, e) in
      rw after (freed-IsOrderly s σ away o);
  shrinks = λ σ a σ' e q away. ground (arith, e, away);
}

-- A transport that keeps its callbacks, or loses some.
pub set_transport-Tidy :
    (s t : ℕ) (f : Transport → Transport)
    → ((tr : Transport) (q : ℕ)
        → member q (f tr).disconnects ≡ true
        → member q tr.disconnects ≡ true)
    → Tidy s (set_transport t f)
set_transport-Tidy s t f fewer = record {
  keeps = λ σ a σ' e o away.
      let after : σ' ≡ with_transport t f σ = ground (arith, e) in
      rw after (record {
        once = o.once;
        allocated = o.allocated;
        distinct = o.distinct;
        old = o.old;
        linked_old = λ k q on. o.linked_old k q (before σ k q on);
        linked_off = λ k q on. o.linked_off k q (before σ k q on);
      });
  shrinks = λ σ a σ' e q away. ground (arith, e, away);
}
  where
    before :
        (σ : State) (k q : ℕ)
        → member q ((with_transport t f σ).transports k).disconnects ≡ true
        → member q (σ.transports k).disconnects ≡ true
    before σ k q on = elim (Bool-cases (t == k)) [
      | inl e ↦
          let t≡k : t ≡ k = (==_iff t k).0 e in
          subst (λ j. member q (σ.transports j).disconnects ≡ true) t≡k
            (fewer (σ.transports t) q (ground (arith, e, on)))
      | inr e ↦ ground (arith, e, on)
    ]

-- Taken off the rings, a socket may lose its identifier.
unlinked-IsOrderly :
    (p : ℕ) (x : Socket) (closings : List ℕ) (σ : State)
    → IsOrderly σ
    → IsOrderly (record σ {
      heap = update σ.heap p (some x);
      locals = unlink p σ.locals;
      closings = closings;
    })
unlinked-IsOrderly p x closings σ o = record {
  once = Once-unlink p σ.locals o.once;
  allocated = λ q on.
      let (y, hy, below, loc) = o.allocated q (member-unlink q p σ.locals on) in
      (y, ground (arith, hy, apart q on), below, loc);
  distinct = λ q r y z on_q on_r hy hz ids.
      o.distinct q r y z (member-unlink q p σ.locals on_q) (member-unlink r p σ.locals on_r)
        (ground (arith, hy, apart q on_q)) (ground (arith, hz, apart r on_r)) ids;
  old = λ q on. o.old q (member-unlink q p σ.locals on);
  linked_old = o.linked_old;
  linked_off = λ t q on. unlink_off q p σ.locals (o.linked_off t q on);
}
  where
    apart : (q : ℕ) → member q (unlink p σ.locals) ≡ true → (p == q) ≡ false
    apart q on = elim (Bool-cases (p == q)) [
      | inl e ↦ absurd (
          ground (
            arith,
            on,
            unlink_gone p σ.locals o.once,
            ap (λ k. member k (unlink p σ.locals)) ((==_iff p q).0 e),
          ))
      | inr e ↦ e
    ]

pub remove_socket-Tidy : (s p : ℕ) → Tidy s (remove_socket p)
unfolding remove_socket
remove_socket-Tidy s p = record {
  keeps = λ σ a σ' e o away. elim (Bool-cases (member p σ.locals || member p σ.closings)) [
    | inr off ↦ let after : σ' ≡ σ = ground (arith, e, off) in rw after o
    | inl on ↦
        elim (σ.heap p) as (λ c. σ.heap p ≡ c → IsOrderly σ') [
          | none ↦ λ h. absurd (ground (arith, e, on, h))
          | some x ↦ λ h.
              let x' : Socket = record x { id = 0 } in
              let after : σ' ≡ record σ {
                heap = update σ.heap p (some x');
                locals = unlink p σ.locals;
                closings = unlink p σ.closings;
              } =
                ground (arith, e, on, h) in
              rw after (unlinked-IsOrderly p x' (unlink p σ.closings) σ o)
        ]
          refl
  ];
  shrinks = λ σ a σ' e q away. ground (arith, e, away, unlink_off q p σ.locals);
}
