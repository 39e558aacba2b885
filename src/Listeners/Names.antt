-- ===== src/Listeners/Names.antt =====
-- Names on the ring of listeners, adbd/src/adb.c.
use stm32f429_adbd.Common.{
  ℕ, ◌≡◌, ◌≢◌, refl, Bool, true, false, Option, none, some, List, [], ◌∷◌, ◌++◌, if◌then◌else◌,
  same_text, same_text_iff, arith, ◌↔◌,
}
use stm32f429_adbd.Listeners.{Listener, find_listener, change, take_off, rebound}

-- Where a connection at a name goes.
unfoldable pub binding : List ℕ → List Listener → Option (List ℕ × Option ℕ)
binding name [] = none
binding name (l ∷ ring) =
    if same_text name l.local_name then some (l.connect_to, l.transport) else binding name ring

-- The names of the ring are distinct.
unfoldable pub has_name : List ℕ → List Listener → Bool
has_name name [] = false
has_name name (l ∷ ring) = if same_text name l.local_name then true else has_name name ring

abbrev pub IsDistinct : List Listener → Type 0
IsDistinct [] = Unit {0}
IsDistinct (l ∷ ring) = (has_name l.local_name ring ≡ false) × IsDistinct ring

same_text-eq : (a b : List ℕ) → same_text a b ≡ true → a ≡ b
same_text-eq a b h = (same_text_iff a b).0 h

pub binding-change :
    (name connect_to : List ℕ) (transport : Option ℕ) (n : List ℕ) (l : Listener)
    (ring : List Listener)
    → find_listener name ring ≡ some l
    → binding n (change name (rebound connect_to transport) ring)
      ≡ (if same_text name n then some (connect_to, transport) else binding n ring)
unfolding binding find_listener change
binding-change name connect_to transport n l [] h = absurd (ground (arith, h))
binding-change name connect_to transport n l (k ∷ ring) h = ground (
  arith,
  h,
  same_text_iff name k.local_name,
  same_text_iff n k.local_name,
  same_text_iff name n,
  binding-change name connect_to transport n l ring,
)

pub binding-append :
    (n : List ℕ) (l : Listener) (ring : List Listener)
    → binding n (ring ++ (l ∷ []))
      ≡ (if has_name n ring then binding n ring else binding n (l ∷ []))
unfolding binding has_name
binding-append n l [] = refl
binding-append n l (k ∷ ring) = ground (arith, binding-append n l ring)

pub has_name-find :
    (n : List ℕ) (ring : List Listener) → (find_listener n ring ≡ none) ↔ (has_name n ring ≡ false)
unfolding has_name find_listener
has_name-find n [] = ground arith
has_name-find n (k ∷ ring) = ground (arith, has_name-find n ring)

pub has_name-binding :
    (n : List ℕ) (ring : List Listener) → (binding n ring ≡ none) ↔ (has_name n ring ≡ false)
unfolding has_name binding
has_name-binding n [] = ground arith
has_name-binding n (k ∷ ring) = ground (arith, has_name-binding n ring)

has_name-change :
    (name connect_to : List ℕ) (transport : Option ℕ) (n : List ℕ) (ring : List Listener)
    → has_name n (change name (rebound connect_to transport) ring) ≡ has_name n ring
unfolding has_name change
has_name-change name connect_to transport n [] = refl
has_name-change name connect_to transport n (k ∷ ring) =
    ground (arith, has_name-change name connect_to transport n ring)

pub IsDistinct-change :
    (name connect_to : List ℕ) (transport : Option ℕ) (ring : List Listener)
    → IsDistinct ring
    → IsDistinct (change name (rebound connect_to transport) ring)
unfolding change
IsDistinct-change name connect_to transport [] d = tt
IsDistinct-change name connect_to transport (k ∷ ring) d = ground (
  arith,
  d,
  IsDistinct-change name connect_to transport ring,
  has_name-change name connect_to transport k.local_name ring,
)

has_name-append :
    (n : List ℕ) (l : Listener) (ring : List Listener)
    → has_name n (ring ++ (l ∷ [])) ≡ (if has_name n ring then true else same_text n l.local_name)
unfolding has_name
has_name-append n l [] = ground arith
has_name-append n l (k ∷ ring) = ground (arith, has_name-append n l ring)

pub IsDistinct-append :
    (l : Listener) (ring : List Listener)
    → IsDistinct ring
    → has_name l.local_name ring ≡ false
    → IsDistinct (ring ++ (l ∷ []))
unfolding has_name
IsDistinct-append l [] d h = (refl, tt)
IsDistinct-append l (k ∷ ring) d h = ground (
  arith,
  d,
  h,
  IsDistinct-append l ring,
  has_name-append k.local_name l ring,
  same_text_iff k.local_name l.local_name,
  same_text_iff l.local_name k.local_name,
)

pub binding-take_off :
    (name n : List ℕ) (ring : List Listener)
    → IsDistinct ring
    → binding n (take_off name ring) ≡ (if same_text name n then none else binding n ring)
unfolding binding take_off
binding-take_off name n [] d = ground arith
binding-take_off name n (k ∷ ring) d = ground (
  arith,
  d,
  binding-take_off name n ring,
  same_text_iff name k.local_name,
  same_text_iff n k.local_name,
  same_text_iff name n,
  has_name-binding n ring,
)

has_name-take_off :
    (name n : List ℕ) (ring : List Listener)
    → has_name n ring ≡ false
    → has_name n (take_off name ring) ≡ false
unfolding has_name take_off
has_name-take_off name n [] h = refl
has_name-take_off name n (k ∷ ring) h = ground (arith, h, has_name-take_off name n ring)

pub IsDistinct-take_off :
    (name : List ℕ) (ring : List Listener) → IsDistinct ring → IsDistinct (take_off name ring)
unfolding take_off
IsDistinct-take_off name [] d = tt
IsDistinct-take_off name (k ∷ ring) d =
    ground (arith, d, IsDistinct-take_off name ring, has_name-take_off name k.local_name ring)

pub find_listener-some :
    (name : List ℕ) (ring : List Listener) (l : Listener)
    → find_listener name ring ≡ some l
    → (l.local_name ≡ name) × (binding name ring ≢ none)
unfolding find_listener binding
find_listener-some name [] l h = absurd (ground (arith, h))
find_listener-some name (k ∷ ring) l h =
    ground (arith, h, find_listener-some name ring l, same_text_iff name k.local_name)
