-- ===== src/Kvp/Entry.antt =====
-- Lines of key=value pairs, and the pairs that they stand for.
use nlutils.Prelude.{ℕ, ◌≡◌, true, false, List, [], ◌∷◌, ◌++◌, ◌==◌}
use nlutils.Ctype.{Bytes, All, IsCString}
use nlutils.Escape.RoundTrip.{escaped}
use nlutils.Kvp.Parse.{Span, Pair}
use nlutils.Kvp.Runs.{IsWordChar, IsKeyChar}
use nlutils.Kvp.Quoted.{HasPlainEnd}

-- A value is a word, given by its first character and the others, or a text between quotation marks.
pub data EntryValue : Type 0 where
  word : ℕ → Bytes → EntryValue
  quoted : Bytes → EntryValue

pub record Entry : Type 0 where
  pub key_head : ℕ
  pub key_tail : Bytes
  pub value : EntryValue

abbrev pub IsEntryValue : EntryValue → Type 0
IsEntryValue (word c v) = IsWordChar c × ((c == b'"') ≡ false) × All IsWordChar v
IsEntryValue (quoted v) = IsCString v × HasPlainEnd v

abbrev pub IsEntry : Entry → Type 0
IsEntry e =
    IsKeyChar e.key_head
    × ((e.key_head == b'"') ≡ false)
    × All IsKeyChar e.key_tail
    × IsEntryValue e.value

abbrev pub value_text : EntryValue → Bytes → Bytes
value_text (word c v) rest = c ∷ v ++ rest
value_text (quoted v) rest = b'"' ∷ escaped v ++ b'"' ∷ rest

abbrev pub entry_text : Entry → Bytes → Bytes
entry_text e rest = e.key_head ∷ e.key_tail ++ b'=' ∷ value_text e.value rest

abbrev pub separated : List Entry → Bytes → Bytes
separated [] rest = []
separated (e ∷ es) rest = b' ' ∷ rest

-- The entries with a space between them.
abbrev pub line_of : List Entry → Bytes
line_of [] = []
line_of (e ∷ es) = entry_text e (separated es (line_of es))

abbrev pub pair_of : Entry → Pair
pair_of e = elim e.value [
  | word c v ↦ record { key = e.key_head ∷ e.key_tail; value = c ∷ v; quoted_value = false }
  | quoted v ↦ record { key = e.key_head ∷ e.key_tail; value = v; quoted_value = true }
]

abbrev pub pairs_of : List Entry → List Pair
pairs_of [] = []
pairs_of (e ∷ es) = pair_of e ∷ pairs_of es

abbrev pub span : (ks kl vs vl : ℕ) → Span
span ks kl vs vl = record { key_start = ks; key_length = kl; value_start = vs; value_length = vl }
