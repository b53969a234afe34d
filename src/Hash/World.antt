-- ===== src/Hash/World.antt =====
-- The memory of src/hash.c: the fifos with their elements, and the hashes and entries at addresses.
-- The strings of an entry are values, so what duplicates and frees them only appears as a Boolean
-- answer of the allocator.
use nlutils.Prelude.{ℕ, ◌+◌, ◌-◌, ◌%◌, ◌^◌, Option, none, some}
use nlutils.Ctype.{Bytes}
use nlutils.Fifo.Store.{Ptr, Store, Run, ok, fault, out_of_fuel, Cmd, update}

-- `struct nl_hash_entry`
pub record HashEntry : Type 0 where
  pub key : Bytes
  pub value : Bytes

-- `struct nl_hash`
pub record Hash : Type 0 where
  pub table : Ptr
  pub count : ℕ

pub record World : Type 0 where
  pub mem : Store
  pub hashes : Ptr → Option Hash
  pub entries : Ptr → Option HashEntry

pub data Outcome (A : Type 0) : Type 0 where
  done : A → World → Outcome A
  faulted : Outcome A
  unfinished : Outcome A

abbrev pub Action : Type 0 → Type 0
Action A = World → Outcome A

abbrev pub give : {A : Type 0} → A → Action A
give = done

abbrev pub continue : {A B : Type 0} → Outcome A → (A → Action B) → Outcome B
continue (done a w) k = k a w
continue faulted k = faulted
continue unfinished k = unfinished

infixl 5 ◌>>=◌ ◌>>◌
abbrev pub ◌>>=◌ : {A B : Type 0} → Action A → (A → Action B) → Action B
m >>= k = λ w. continue (m w) k

abbrev pub ◌>>◌ : {A B : Type 0} → Action A → Action B → Action B
m >> k = m >>= λ _. k

abbrev pub after_run : {A : Type 0} → World → Run A → Outcome A
after_run w (ok a s) = done a (record w { mem = s })
after_run w fault = faulted
after_run w out_of_fuel = unfinished

-- A command of the fifo.
abbrev pub on_fifos : {A : Type 0} → Cmd A → Action A
on_fifos c = λ w. after_run w (c w.mem)

unfoldable pub load_hash : Ptr → Action Hash
load_hash p w = elim (w.hashes p) [ none ↦ faulted | some h ↦ done h w ]

abbrev pub set_hash : Ptr → Option Hash → Action (Unit {0})
set_hash p h = λ w. done tt (record w { hashes = update w.hashes p h })

unfoldable pub load_entry : Ptr → Action HashEntry
load_entry p w = elim (w.entries p) [ none ↦ faulted | some e ↦ done e w ]

abbrev pub set_entry : Ptr → Option HashEntry → Action (Unit {0})
set_entry p e = λ w. done tt (record w { entries = update w.entries p e })

-- `size_t`
abbrev pub size_mod : ℕ
size_mod = 2 ^ 64

unfoldable pub count_inc : ℕ → ℕ
count_inc n = (n + 1) % size_mod

unfoldable pub count_dec : ℕ → ℕ
count_dec n = (n + size_mod - 1) % size_mod
