-- ===== src/Common/Programs.antt =====
-- Programs that read and change a state: the notation of the components whose calls never crash.
infixl 5 ◌>>=◌ ◌>>◌
abbrev pub ◌>>=◌ : {S A B : Type 0} → (S → A × S) → (A → S → B × S) → S → B × S
◌>>=◌ m f s = f (m s).0 (m s).1

abbrev pub ◌>>◌ : {S B : Type 0} → (S → Unit {0} × S) → (S → B × S) → S → B × S
◌>>◌ m k s = k (m s).1

abbrev pub pure : {S A : Type 0} → A → S → A × S
pure a s = (a, s)
