-- ===== src/Client/Split.antt =====
-- The loop of receiver.cpp that splits a delivery gives the tokens of `std::getline`.
use csf_hw.Prelude.{
  ==_iff, ℕ, suc, ◌+◌, ◌-◌, ◌≡◌, refl, ap, ◌∙◌, Bool-cases, inl, inr, true, false, List, [], ◌∷◌,
  ◌++◌, length, length-append, drop, take, drop-length_append, ltb, ◌==◌, append-nil, append_assoc,
  arith, if◌then◌else◌,
}
use csf_hw.Text.{Str, has, tokens}
use csf_hw.Text.Equality.{has-append_false}
use csf_hw.Text.Split.{tokens-field, tokens_last, tokens-empty}
use csf_hw.Client.Receiver.{split_loop, split_data}

take-length_append : (xs ys : Str) → take (length xs) (xs ++ ys) ≡ xs
take-length_append [] ys = refl
take-length_append (x ∷ xs) ys = ap (◌∷◌ x) (take-length_append xs ys)

-- What `split_data` does after the loop.
abbrev finish : Str → List Str × ℕ → List Str
finish text (storage, prev) =
    if ltb prev (length text) then storage ++ drop prev text ∷ [] else storage

finish_lem :
    (text before piece : Str) (storage : List Str)
    → text ≡ before ++ piece
    → has b':' piece ≡ false
    → finish text (storage, length before) ≡ storage ++ tokens b':' piece
finish_lem text before [] storage e h =
    rw (e, append-nil before, tokens-empty b':', append-nil storage) (ground arith)
finish_lem text before (c ∷ piece) storage e h =
    rw (e, drop-length_append before (c ∷ piece), tokens_last b':' c piece h)
      (ground (arith, length-append before (c ∷ piece)))

-- The next piece that is stored.
piece_lem :
    (text before piece rest : Str) (i prev : ℕ)
    → text ≡ before ++ (piece ++ rest)
    → prev ≡ length before
    → i ≡ length before + length piece
    → take (i - prev) (drop prev text) ≡ piece
piece_lem text before piece rest i prev e ep ei =
    ap (λ n. take n (drop prev text)) {x = i - prev} {y = length piece} (omega arith)
    ∙ rw (e, ep, drop-length_append before (piece ++ rest)) (take-length_append piece rest)

tokens-colon :
    (c : ℕ) (piece rest : Str)
    → (c == b':') ≡ true
    → has b':' piece ≡ false
    → tokens b':' (piece ++ c ∷ rest) ≡ piece ∷ tokens b':' rest
tokens-colon c piece rest colon h = rw ((==_iff c b':').0 colon) (tokens-field b':' piece rest h)

-- `before` ends behind the last colon, `piece` is what was read since.
split_loop_lem :
    (text before piece rest : Str) (i prev : ℕ) (storage : List Str)
    → text ≡ before ++ (piece ++ rest)
    → prev ≡ length before
    → i ≡ length before + length piece
    → has b':' piece ≡ false
    → finish text (split_loop text rest i prev storage) ≡ storage ++ tokens b':' (piece ++ rest)
unfolding split_loop has
split_loop_lem text before piece [] i prev storage e ep ei h =
    rw (append-nil piece, ep)
      (finish_lem text before piece storage (e ∙ ap (λ s. before ++ s) (append-nil piece)) h)
split_loop_lem text before piece (c ∷ rest) i prev storage e ep ei h =
    elim (Bool-cases (c == b':')) [
      | inl colon ↦
          rw
            (
              colon,
              tokens-colon c piece rest colon h,
              piece_lem text before piece (c ∷ rest) i prev e ep ei,
            )
            (split_loop_lem text (before ++ (piece ++ c ∷ [])) [] rest (suc i) (i + 1)
                (storage ++ piece ∷ []) (e ∙ simp append_assoc)
                (omega
                  (arith, length-append before (piece ++ c ∷ []), length-append piece (c ∷ [])))
                (omega
                  (arith, length-append before (piece ++ c ∷ []), length-append piece (c ∷ [])))
                refl
              ∙ append_assoc storage (piece ∷ []) (tokens b':' rest))
      | inr other ↦ rw other (
          split_loop_lem text before (piece ++ c ∷ []) rest (suc i) prev storage
            (e ∙ simp append_assoc) ep (omega (arith, length-append piece (c ∷ [])))
            (has-append_false b':' piece (c ∷ []) h (ground arith))
          ∙ ap (λ s. storage ++ tokens b':' s) (append_assoc piece (c ∷ []) rest))
    ]

-- For every text, the loop over indices in receiver.cpp with the code behind it gives exactly the
-- fields that the `std::getline` loop of `divide_data` gives.
pub split_data-tokens : (text : Str) → split_data text ≡ tokens b':' text
unfolding split_data has
split_data-tokens text = split_loop_lem text [] [] text 0 0 [] refl refl refl refl
