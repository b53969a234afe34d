-- ===== src/Fifo/Store.antt =====
-- Fifos and elements at addresses, and commands that read and write them.
use nlutils.Prelude.{ℕ, ◌+◌, ◌-◌, ◌%◌, ◌^◌, Option, none, some, ltb, ◌==◌, if◌then◌else◌}
use nlutils.Prelude.Int.{ℤ, pos, negsuc}

abbrev pub Ptr : Type 0
Ptr = ℕ

abbrev pub null : Ptr
null = 0

-- `struct nl_fifo_element`; `item` is its `data`, and `owner` its `l`.
pub record Element : Type 0 where
  pub next : Ptr
  pub item : Ptr
  pub owner : Ptr

-- `struct nl_fifo`
pub record Fifo : Type 0 where
  pub first : Ptr
  pub last : Ptr
  pub count : ℕ

pub record Store : Type 0 where
  pub fifos : Ptr → Option Fifo
  pub elems : Ptr → Option Element

abbrev pub update {ℓ} : {A : Type ℓ} → (Ptr → A) → Ptr → A → Ptr → A
update m p v a = if a == p then v else m a

-- A fault is an access through NULL or a dangling pointer, or a call of `abort`.
pub data Run (A : Type 0) : Type 0 where
  ok : A → Store → Run A
  fault : Run A
  out_of_fuel : Run A

abbrev pub Cmd : Type 0 → Type 0
Cmd A = Store → Run A

abbrev pub pure : {A : Type 0} → A → Cmd A
pure = ok

abbrev pub and_then : {A B : Type 0} → Run A → (A → Cmd B) → Run B
and_then (ok a s) k = k a s
and_then fault k = fault
and_then out_of_fuel k = out_of_fuel

infixl 5 ◌>>=◌ ◌>>◌
abbrev pub ◌>>=◌ : {A B : Type 0} → Cmd A → (A → Cmd B) → Cmd B
m >>= k = λ s. and_then (m s) k

abbrev pub ◌>>◌ : {A B : Type 0} → Cmd A → Cmd B → Cmd B
m >> k = m >>= λ _. k

abbrev pub abort : {A : Type 0} → Cmd A
abort s = fault

unfoldable pub load_fifo : Ptr → Cmd Fifo
load_fifo l s = elim (s.fifos l) [ none ↦ fault | some f ↦ ok f s ]

abbrev pub set_fifos : Ptr → Option Fifo → Store → Store
set_fifos l f s = record s { fifos = update s.fifos l f }

abbrev pub set_elems : Ptr → Option Element → Store → Store
set_elems p e s = record s { elems = update s.elems p e }

unfoldable pub store_fifo : Ptr → Fifo → Cmd (Unit {0})
unfolding load_fifo
store_fifo l f = do load_fifo l; λ s. ok tt (set_fifos l (some f) s)

unfoldable pub load : Ptr → Cmd Element
load p s = elim (s.elems p) [ none ↦ fault | some e ↦ ok e s ]

unfoldable pub store : Ptr → Element → Cmd (Unit {0})
unfolding load
store p e = do load p; λ s. ok tt (set_elems p (some e) s)

-- `p->next = q`
unfoldable pub set_next : Ptr → Ptr → Cmd (Unit {0})
unfolding load store
set_next p q = do e ← load p; store p (record e { next = q })

unfoldable pub free : Ptr → Cmd (Unit {0})
unfolding load
free p = do load p; λ s. ok tt (set_elems p none s)

-- `unsigned int` arithmetic on the counts, and the conversion to `int`.
abbrev pub u32_mod : ℕ
u32_mod = 2 ^ 32

unfoldable pub inc : ℕ → ℕ
inc n = (n + 1) % u32_mod

unfoldable pub dec : ℕ → ℕ
dec n = (n + u32_mod - 1) % u32_mod

unfoldable pub to_int : ℕ → ℤ
to_int n = if ltb n (2 ^ 31) then pos n else negsuc (u32_mod - n - 1)
