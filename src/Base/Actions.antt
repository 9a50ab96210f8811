-- ===== src/Base/Actions.antt =====
-- Code that changes a state: an action takes the state and gives a result and the state after.

abbrev pub Act : Type 0 → Type 0 → Type 0
Act S A = S → A × S

infixl 5 ◌>>=◌ ◌>>◌
abbrev pub ◌>>=◌ : {S A B : Type 0} → Act S A → (A → Act S B) → Act S B
◌>>=◌ m f s = let (a, s') = m s in f a s'

abbrev pub ◌>>◌ : {S A B : Type 0} → Act S A → Act S B → Act S B
m >> k = m >>= λ _. k

abbrev pub pure : {S A : Type 0} → A → Act S A
pure a s = (a, s)

-- A call whose effect is on the state alone.
abbrev pub modify : {S : Type 0} → (S → S) → Act S (Unit {0})
modify f s = (tt, f s)
