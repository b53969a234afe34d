-- ===== src/Prelude/Action.antt =====
-- Commands on a state, for `do` blocks. A fault is an access through NULL or a dangling pointer; an
-- unfinished run is a loop that had fewer rounds than it needs.

pub data Outcome (S A : Type 0) : Type 0 where
  done : A → S → Outcome S A
  faulted : Outcome S A
  unfinished : Outcome S A

abbrev pub Action : (S A : Type 0) → Type 0
Action S A = S → Outcome S A

module _ {S : Type 0} where
  abbrev pub give : {A : Type 0} → A → Action S A
  give = done

  abbrev pub fault : {A : Type 0} → Action S A
  fault s = faulted

  abbrev pub diverge : {A : Type 0} → Action S A
  diverge s = unfinished

  abbrev pub get : Action S S
  get s = done s s

  abbrev pub modify : (S → S) → Action S (Unit {0})
  modify f s = done tt (f s)

  abbrev pub continue : {A B : Type 0} → Outcome S A → (A → Action S B) → Outcome S B
  continue (done a s) k = k a s
  continue faulted k = faulted
  continue unfinished k = unfinished

  infixl 5 ◌>>=◌ ◌>>◌
  abbrev pub ◌>>=◌ : {A B : Type 0} → Action S A → (A → Action S B) → Action S B
  m >>= k = λ s. continue (m s) k

  abbrev pub ◌>>◌ : {A B : Type 0} → Action S A → Action S B → Action S B
  m >> k = m >>= λ _. k
