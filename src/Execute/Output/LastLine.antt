-- ===== src/Execute/Output/LastLine.antt =====
-- The part of the output that is named is its last line.
use ework_runner.Prelude.{
  true, false, ◌==◌, ◌==ˢ◌, ◌≡◌, ◌≢◌, refl, ap, ◌∙◌, List, ◌⊎◌, inl, inr, eq_iff, eq_refl, arith,
  Bool-cases,
}
use Prim.Native.Char.{Char, code}
use Prim.Native.String.{String, [], ◌∷◌}
use ework_runner.Prelude.Text.{is_space, trim_space, trim_left, trim_right, before_trimmed}
use ework_runner.Execute.Output.{
  onto_first, split_lines, has_text, valid_lines, last_line, last_valid, want_result,
}

-- The last character is no space.
abbrev EndsInk : String → Type 0
EndsInk [] = ⊥
EndsInk (c ∷ []) = is_space c ≡ false
EndsInk (c ∷ d ∷ s) = EndsInk (d ∷ s)

cons-EndsInk : (c : Char) (s : String) → EndsInk s → EndsInk (c ∷ s)
cons-EndsInk c [] h = absurd h
cons-EndsInk c (d ∷ s) h = h

before_trimmed-EndsInk : (c : Char) (s : String) → EndsInk s → EndsInk (before_trimmed c s)
before_trimmed-EndsInk c [] h = absurd h
before_trimmed-EndsInk c (d ∷ s) h = h

trim_right_cases : (s : String) → (trim_right s ≡ []) ⊎ EndsInk (trim_right s)
unfolding trim_right
trim_right_cases [] = inl refl
trim_right_cases (c ∷ s) = step (trim_right s) (trim_right_cases s)
  where
    step :
        (r : String)
        → (r ≡ []) ⊎ EndsInk r
        → (before_trimmed c r ≡ []) ⊎ EndsInk (before_trimmed c r)
    step [] h = elim (Bool-cases (is_space c)) [ inl e ↦ inl (rw e refl) | inr e ↦ inr (rw e e) ]
    step (d ∷ r) (inl e) = absurd (cc e)
    step (d ∷ r) (inr ink) = inr ink

trim_right-EndsInk : (s : String) → EndsInk s → EndsInk (trim_right s)
unfolding trim_right
trim_right-EndsInk [] h = absurd h
trim_right-EndsInk (c ∷ []) h = rw h h
trim_right-EndsInk (c ∷ d ∷ s) h =
    before_trimmed-EndsInk c (trim_right (d ∷ s)) (trim_right-EndsInk (d ∷ s) h)

trim_left-EndsInk : (s : String) → EndsInk s → EndsInk (trim_left s)
unfolding trim_left
trim_left-EndsInk [] h = absurd h
trim_left-EndsInk (c ∷ []) h = rw h h
trim_left-EndsInk (c ∷ d ∷ s) h = elim (Bool-cases (is_space c)) [
  | inl e ↦ rw e (trim_left-EndsInk (d ∷ s) h)
  | inr e ↦ rw e h
]

EndsInk-ne-nil : (s : String) → EndsInk s → (s ==ˢ "") ≡ false
EndsInk-ne-nil [] h = absurd h
EndsInk-ne-nil (c ∷ s) h = elim (Bool-cases ((c ∷ s) ==ˢ "")) [
  | inl e ↦ absurd (cc ((eq_iff (c ∷ s) "").0 e))
  | inr e ↦ e
]

has_text-EndsInk : (line : String) → EndsInk line → has_text line ≡ true
unfolding has_text trim_space
has_text-EndsInk line h =
    rw
      (EndsInk-ne-nil (trim_space line)
        (trim_right-EndsInk (trim_left line) (trim_left-EndsInk line h)))
      refl

-- The last line ends in a character that is no space.
abbrev LastInk : List String → Type 0
LastInk List.[] = ⊥
LastInk (List.◌∷◌ line List.[]) = EndsInk line
LastInk (List.◌∷◌ line (List.◌∷◌ next lines)) = LastInk (List.◌∷◌ next lines)

cons-LastInk : (line : String) (lines : List String) → LastInk lines → LastInk (List.◌∷◌ line lines)
cons-LastInk line List.[] h = absurd h
cons-LastInk line (List.◌∷◌ next lines) h = h

onto_first-LastInk : (c : Char) (lines : List String) → LastInk lines → LastInk (onto_first c lines)
onto_first-LastInk c List.[] h = absurd h
onto_first-LastInk c (List.◌∷◌ line List.[]) h = cons-EndsInk c line h
onto_first-LastInk c (List.◌∷◌ line (List.◌∷◌ next lines)) h = h

newline-is_space : (c : Char) → (code c == 10) ≡ true → is_space c ≡ true
unfolding is_space
newline-is_space c h = ground (arith, h)

split_lines-LastInk : (s : String) → EndsInk s → LastInk (split_lines s)
unfolding split_lines
split_lines-LastInk [] h = absurd h
split_lines-LastInk (c ∷ []) h = elim (Bool-cases (code c == 10)) [
  | inl e ↦ absurd (cc (h, newline-is_space c e))
  | inr e ↦ rw e h
]
split_lines-LastInk (c ∷ d ∷ s) h = elim (Bool-cases (code c == 10)) [
  | inl e ↦ rw e (cons-LastInk [] (split_lines (d ∷ s)) (split_lines-LastInk (d ∷ s) h))
  | inr e ↦ rw e (onto_first-LastInk c (split_lines (d ∷ s)) (split_lines-LastInk (d ∷ s) h))
]

valid_lines-ne-nil : (lines : List String) → LastInk lines → valid_lines lines ≢ List.[]
unfolding valid_lines
valid_lines-ne-nil List.[] h e = h
valid_lines-ne-nil (List.◌∷◌ line List.[]) h e = ground (arith, has_text-EndsInk line h, e)
valid_lines-ne-nil (List.◌∷◌ line (List.◌∷◌ next lines)) h e =
    ground (arith, e, valid_lines-ne-nil (List.◌∷◌ next lines) h)

last_line-ne-nil :
    (line : String) (lines : List String)
    → lines ≢ List.[]
    → last_line line lines ≡ last_valid lines
unfolding last_line
last_line-ne-nil line List.[] h = absurd (h refl)
last_line-ne-nil line (List.◌∷◌ next lines) h = refl

last_valid-valid_lines :
    (lines : List String) → LastInk lines → last_valid (valid_lines lines) ≡ last_valid lines
unfolding valid_lines last_line
last_valid-valid_lines List.[] h = absurd h
last_valid-valid_lines (List.◌∷◌ line List.[]) h = rw (has_text-EndsInk line h) refl
last_valid-valid_lines (List.◌∷◌ line (List.◌∷◌ next lines)) h =
    let rest = valid_lines (List.◌∷◌ next lines) in
    let same = last_valid-valid_lines (List.◌∷◌ next lines) h in
    elim (Bool-cases (has_text line)) [
      | inl e ↦
          rw e (last_line-ne-nil line rest (valid_lines-ne-nil (List.◌∷◌ next lines) h) ∙ same)
      | inr e ↦ rw e same
    ]

-- If the output is not blank, what is wanted of it is the last line of the trimmed output: the
-- filter of blank lines makes no difference.
pub want_result-last_line :
    (output : String)
    → (trim_space output ==ˢ "") ≡ false
    → want_result output ≡ last_valid (split_lines (trim_space output))
unfolding want_result trim_space
want_result-last_line output h = elim (trim_right_cases (trim_left output)) [
  | inl e ↦
      let blank : (trim_space output ==ˢ "") ≡ true =
        ap (λ (s : String). s ==ˢ "") e ∙ eq_refl "" in
      absurd (cc (h, blank))
  | inr ink ↦ rw h (
      last_valid-valid_lines (split_lines (trim_space output))
        (split_lines-LastInk (trim_space output) ink))
]
