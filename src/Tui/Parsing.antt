-- ===== src/Tui/Parsing.antt =====
-- internal/tui/remote.go: `parseInput` ends, and a bracketed paste arrives whole.
use mathlib.Core.List.{append_assoc}
use sshgatew.Prelude.{
  ℕ, zero, suc, ◌+◌, ◌≤◌, ◌≡◌, ◌≢◌, refl, sym, ap, ◌∙◌, ◌⊎◌, inl, inr, false, List, [], ◌∷◌, ◌++◌,
  Option, none, some, any, arith, Option-cases, ℕ_discrete,
}
use sshgatew.Prelude.Lists.{length, take, drop, length-append}
use sshgatew.Prelude.Texts.{Text, codes, has_prefix, contains, text_discrete}
use sshgatew.Tui.{
  InputEvent, paste, Decoder, Step, last, wait, use_up, index, esc, paste_start, paste_end,
  find_sequence, parse_extended_key, extended_step, sequences, paste_step, input_step, add_event,
  parse_input,
}

index-append :
    (text rest : Text)
    → contains esc text ≡ false
    → index (text ++ (paste_end ++ rest)) paste_end ≡ some (length text)
unfolding index contains any has_prefix
index-append [] rest h = refl
index-append (c ∷ text) rest h = ground (arith, index-append text rest)

take-append : (s t : Text) → take (length s) (s ++ t) ≡ s
take-append [] t = refl
take-append (c ∷ s) t = ap (λ r. c ∷ r) (take-append s t)

drop-append : (s u : Text) (n : ℕ) → length s ≡ n → drop n (s ++ u) ≡ u
drop-append [] u n e = ground arith
drop-append (c ∷ s) u zero e = ground arith
drop-append (c ∷ s) u (suc n) e = drop-append s u n (ground arith)

length-drop : (n : ℕ) (s : Text) → length (drop n s) ≤ length s
length-drop zero s = omega arith
length-drop (suc n) [] = omega arith
length-drop (suc n) (c ∷ s) = omega (arith, length-drop n s)

find_sequence-length :
    (s : Text) (seqs : List (Text × Text)) (r : Text × ℕ) → find_sequence s seqs ≡ some r → 1 ≤ r.1
unfolding find_sequence
find_sequence-length s [] r e = cc
find_sequence-length s ((raw, name) ∷ seqs) r e = ground (arith, find_sequence-length s seqs r)

Step-cases :
    (s : Step)
    → ((e : InputEvent) × (s ≡ last e))
      ⊎ (s ≡ wait)
      ⊎ ((e : Option InputEvent) × (n : ℕ) × (s ≡ use_up e n))
Step-cases (last e) = inl (e, refl)
Step-cases wait = inr (inl refl)
Step-cases (use_up e n) = inr (inr (e, n, refl))

module _ (d : Decoder) where
  paste_branch :
      (body : Text) → input_step d esc (codes "[200~" ++ body) ≡ paste_step d (paste_start ++ body)
  unfolding input_step has_prefix text_discrete ℕ_discrete
  paste_branch body = ground arith

  paste_found :
      (body : Text) (n : ℕ)
      → index body paste_end ≡ some n
      → paste_step d (paste_start ++ body) ≡ use_up (some (paste (take n body))) (6 + n + 6)
  paste_found body n e = ground (arith, e)

  paste_read :
      (text rest : Text)
      → contains esc text ≡ false
      → paste_step d (paste_start ++ (text ++ (paste_end ++ rest)))
        ≡ use_up (some (paste text)) (6 + length text + 6)
  paste_read text rest h =
      paste_found (text ++ (paste_end ++ rest)) (length text) (index-append text rest h)
      ∙ ap (λ t. use_up (some (paste t)) (6 + length text + 6))
          (take-append text (paste_end ++ rest))

  next_step :
      (fuel c : ℕ) (s : Text) (e : Option InputEvent) (n : ℕ)
      → input_step d c s ≡ use_up e n
      → parse_input d (suc fuel) (c ∷ s) ≡ add_event d e (parse_input d fuel (drop n (c ∷ s)))
  unfolding parse_input
  next_step fuel c s e n k = ground (arith, k)

  -- A bracketed paste of a text without an escape character arrives as one event that holds the
  -- text, whatever other control characters it has, and the input after it is read as if it stood
  -- alone.
  pub parse_input-paste :
      (fuel : ℕ) (text rest : Text)
      → contains esc text ≡ false
      → parse_input d (suc fuel) (paste_start ++ (text ++ (paste_end ++ rest)))
        ≡ add_event d (some (paste text)) (parse_input d fuel rest)
  parse_input-paste fuel text rest h =
      let body = text ++ (paste_end ++ rest) in
      let marked = paste_start ++ (text ++ paste_end) in
      let bytes : paste_start ++ body ≡ marked ++ rest =
        ap (λ r. paste_start ++ r) (sym (append_assoc text paste_end rest)) in
      let size : length marked ≡ 6 + length text + 6 =
        omega (arith, length-append text paste_end) in
      next_step fuel esc (codes "[200~" ++ body) (some (paste text)) (6 + length text + 6)
        (paste_branch body ∙ paste_read text rest h)
      ∙ ap (λ r. add_event d (some (paste text)) (parse_input d fuel r))
          (ap (drop (6 + length text + 6)) bytes
            ∙ drop-append marked rest (6 + length text + 6) size)

  extended-positive :
      (s : Text) (e : Option InputEvent) (n : ℕ)
      → extended_step d (parse_extended_key d s) ≡ use_up e n
      → 1 ≤ n
  unfolding parse_extended_key
  extended-positive s e n k = ground arith

  step-positive :
      ((c : ℕ) (s : Text) → 1 ≤ (d.decode_rune (c ∷ s)).1)
      → (c : ℕ) (s : Text) (e : Option InputEvent) (n : ℕ) → input_step d c s ≡ use_up e n
      → 1 ≤ n
  unfolding input_step
  step-positive sized c s e n k = elim (Option-cases (find_sequence (c ∷ s) sequences)) [
    | inl f ↦ ground (arith, f, sized c s, extended-positive (c ∷ s) e n)
    | inr (r, f) ↦ ground (arith, f, sized c s, find_sequence-length (c ∷ s) sequences r f)
  ]

  -- With a decoder that gives every rune a size of a byte or more, `parseInput` ends: one iteration
  -- for each byte is enough.
  pub parse_input-length :
      ((c : ℕ) (s : Text) → 1 ≤ (d.decode_rune (c ∷ s)).1)
      → (fuel : ℕ) (s : Text) → length s ≤ fuel
      → parse_input d fuel s ≢ none
  unfolding parse_input
  parse_input-length sized fuel [] h e = cc
  parse_input-length sized zero (c ∷ s) h e = absurd (omega arith)
  parse_input-length sized (suc fuel) (c ∷ s) h e = elim (Step-cases (input_step d c s)) [
    | inl (ev, k) ↦ absurd (ground (arith, k))
    | inr (inl k) ↦ absurd (ground (arith, k))
    | inr (inr (ev, zero, k)) ↦ absurd (omega (arith, step-positive sized c s ev zero k))
    | inr (inr (ev, suc n, k)) ↦
        ground (arith, k, parse_input-length sized fuel (drop n s) (omega (arith, length-drop n s)))
  ]
