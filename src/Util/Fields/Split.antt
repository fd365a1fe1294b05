-- ===== src/Util/Fields/Split.antt =====
-- `parse_string_fast` against the pieces between separators.
use prefix_match_server.Prelude.{
  ℕ, zero, suc, ◌+◌, ◌≡◌, refl, sym, ap, inl, inr, [], ◌∷◌, arith, Bytes, take, drop, Option-cases,
}
use prefix_match_server.Util.Sep.{find_first_of}
use prefix_match_server.Util.Sep.Pieces.{pieces, pieces-none, pieces-some}
use prefix_match_server.Util.Fields.{max_keyword_length, fields_loop, parse_string_fast}

take-singleton : (n : ℕ) (p : Bytes) → take (suc n) (p ∷ []) ≡ p ∷ []
take-singleton zero p = refl
take-singleton (suc n) p = refl

fields_loop_lem :
    (split room : ℕ) (head : Bytes)
    → fields_loop split room head ≡ take room (pieces (split ∷ []) head)
unfolding fields_loop
fields_loop_lem split zero head = refl
fields_loop_lem split (suc room) head = elim (Option-cases (find_first_of (split ∷ []) head 0)) [
  | inl e ↦ rw (e, fields_loop, pieces-none (split ∷ []) head e) (sym (take-singleton room head))
  | inr (k, e) ↦
      let k1 : k + 1 ≡ suc k = omega arith in
      rw (e, fields_loop, (pieces-some (split ∷ []) head k e).1, k1)
        (ap (◌∷◌ (take k head)) (fields_loop_lem split room (drop (suc k) head)))
]

-- For every text and separator, `parse_string_fast` returns the fields between the separators in
-- order, the first `MAX_KEYWORD_LENGTH` of them if there are more.
pub parse_string_fast-pieces :
    (str : Bytes) (split : ℕ)
    → parse_string_fast str split ≡ take max_keyword_length (pieces (split ∷ []) str)
unfolding parse_string_fast
parse_string_fast-pieces str split = fields_loop_lem split max_keyword_length str
