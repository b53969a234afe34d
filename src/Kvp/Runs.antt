-- ===== src/Kvp/Runs.antt =====
-- Runs of the loop of `nl_parse_kvp` over a key, a value, and a pair.
use mathlib.Core.Path.{subst}
use nlutils.Prelude.{
  ℕ, zero, suc, ◌+◌, ◌<◌, ◌≤◌, ◌≡◌, refl, sym, ap, ◌∙◌, true, false, List, [], ◌∷◌, ◌++◌, ◌==◌,
  length, drop, drop-drop, arith,
}
use nlutils.Prelude.Loop.{while, while-step}
use nlutils.Ctype.{Bytes, byte_at, isspace, All}
use nlutils.Kvp.Parse.{Mode, read_key, read_value, Span, Parse, kvp_step, has_char}
use nlutils.Kvp.Spans.{parse}

-- What is left at an offset.
abbrev pub At : Bytes → ℕ → Bytes → Type 0
At line off rest = drop off line ≡ rest

pub byte_at-drop : (n : ℕ) (s : Bytes) → byte_at (drop n s) 0 ≡ byte_at s n
byte_at-drop zero s = refl
byte_at-drop (suc n) [] = refl
byte_at-drop (suc n) (c ∷ s) = byte_at-drop n s

pub At-byte :
    (line : Bytes) (off c : ℕ) (rest : Bytes) → At line off (c ∷ rest) → byte_at line off ≡ c
At-byte line off c rest h = sym (byte_at-drop off line) ∙ ap (λ s. byte_at s 0) h

pub At-next :
    (line : Bytes) (off c : ℕ) (rest : Bytes) → At line off (c ∷ rest) → At line (off + 1) rest
At-next line off c rest h = sym (drop-drop 1 off line) ∙ ap (drop 1) h

-- The loop goes from a state to another one, in no more rounds than characters.
pub record Runs (line : Bytes) (s t : Parse) : Type 0 where
  pub count : ℕ
  pub bound : count + s.off ≤ t.off
  pub reach :
      (rounds : ℕ)
      → while (count + rounds) (has_char line) (kvp_step line) s
        ≡ while rounds (has_char line) (kvp_step line) t

pub stay : (line : Bytes) (s : Parse) → Runs line s s
stay line s = record {
  count = 0;
  bound = omega arith;
  reach = λ rounds.
      let e : 0 + rounds ≡ rounds = omega arith in
      ap (λ n. while n (has_char line) (kvp_step line) s) e;
}

pub Runs-append : {line : Bytes} {s t u : Parse} → Runs line s t → Runs line t u → Runs line s u
Runs-append {line = line} {s = s} r q = record {
  count = r.count + q.count;
  bound = omega (arith, r.bound, q.bound);
  reach = λ rounds.
      let e : r.count + q.count + rounds ≡ r.count + (q.count + rounds) = omega arith in
      ap (λ n. while n (has_char line) (kvp_step line) s) e
      ∙ r.reach (q.count + rounds)
      ∙ q.reach rounds;
}

-- One round on a character.
pub one_round :
    (line : Bytes) (s t : Parse) (c : ℕ) (rest : Bytes)
    → At line s.off (c ∷ rest)
    → (c == 0) ≡ false
    → kvp_step line s ≡ t
    → s.off < t.off
    → Runs line s t
one_round line s t c rest at nz step more =
    let go : has_char line s ≡ true = rw (At-byte line s.off c rest at, nz) refl in
    record {
      count = 1;
      bound = omega arith;
      reach = λ rounds.
          let e : 1 + rounds ≡ suc rounds = omega arith in
          ap (λ n. while n (has_char line) (kvp_step line) s) e
          ∙ while-step (has_char line) (kvp_step line) rounds s go
          ∙ ap (while rounds (has_char line) (kvp_step line)) step;
    }

-- The characters of an unquoted value, and of a key behind its first character.
abbrev pub IsWordChar : ℕ → Type 0
IsWordChar c = (isspace c ≡ false) × ((c == 0) ≡ false)

abbrev pub IsKeyChar : ℕ → Type 0
IsKeyChar c = (isspace c ≡ false) × ((c == 0) ≡ false) × ((c == b'=') ≡ false)

-- A loop that stays in a state, and what is left behind it.
abbrev pub Passes : Bytes → (ℕ → Parse) → ℕ → (passed rest : Bytes) → Type 0
Passes line s off passed rest =
    Runs line (s off) (s (off + length passed)) × At line (off + length passed) rest

pub Passes-none :
    (line : Bytes) (s : ℕ → Parse) (off : ℕ) (rest : Bytes)
    → At line off rest
    → Passes line s off [] rest
Passes-none line s off rest at =
    let e : off ≡ off + 0 = omega arith in
    subst (λ n. Runs line (s off) (s n) × At line n rest) e (stay line (s off), at)

pub Passes-more :
    (line : Bytes) (s : ℕ → Parse) (off c : ℕ) (passed rest : Bytes)
    → Runs line (s off) (s (off + 1))
    → Passes line s (off + 1) passed rest
    → Passes line s off (c ∷ passed) rest
Passes-more line s off c passed rest r (q, at) =
    let e : off + 1 + length passed ≡ off + suc (length passed) = omega arith in
    subst (λ n. Runs line (s off) (s n) × At line n rest) e (Runs-append r q, at)

module _ (line : Bytes) (ks kl vs : ℕ) (sent : List Span) where
  abbrev pub in_mode : Mode → ℕ → Parse
  in_mode m off = parse m ks kl vs off sent

  key_round :
      (off c : ℕ) (rest : Bytes)
      → IsKeyChar c
      → At line off (c ∷ rest)
      → Runs line (in_mode read_key off) (in_mode read_key (off + 1))
  unfolding kvp_step
  key_round off c rest (space, nz, eq) at =
      one_round line (in_mode read_key off) (in_mode read_key (off + 1)) c rest at nz
        (rw (At-byte line off c rest at, space, eq) refl) (omega arith)

  word_round :
      (off c : ℕ) (rest : Bytes)
      → IsWordChar c
      → At line off (c ∷ rest)
      → Runs line (in_mode read_value off) (in_mode read_value (off + 1))
  unfolding kvp_step
  word_round off c rest (space, nz) at =
      one_round line (in_mode read_value off) (in_mode read_value (off + 1)) c rest at nz
        (rw (At-byte line off c rest at, space) refl) (omega arith)

  pub run_key :
      (k rest : Bytes) (off : ℕ)
      → All IsKeyChar k
      → At line off (k ++ rest)
      → Passes line (in_mode read_key) off k rest
  run_key [] rest off h at = Passes-none line (in_mode read_key) off rest at
  run_key (c ∷ k) rest off h at =
      Passes-more line (in_mode read_key) off c k rest (key_round off c (k ++ rest) h.0 at)
        (run_key k rest (off + 1) h.1 (At-next line off c (k ++ rest) at))

  pub run_word :
      (v rest : Bytes) (off : ℕ)
      → All IsWordChar v
      → At line off (v ++ rest)
      → Passes line (in_mode read_value) off v rest
  run_word [] rest off h at = Passes-none line (in_mode read_value) off rest at
  run_word (c ∷ v) rest off h at =
      Passes-more line (in_mode read_value) off c v rest (word_round off c (v ++ rest) h.0 at)
        (run_word v rest (off + 1) h.1 (At-next line off c (v ++ rest) at))
