-- ===== src/Log/Lines.antt =====
-- The line that `_log` makes of a message.
use prefix_match_server.Prelude.{
  suc, ◌≤◌, ◌<◌, ◌≡◌, ◌⊎◌, refl, true, [], ◌∷◌, ◌++◌, arith, Bytes, leb, length, length-append,
  Bool-cases, inl, inr,
}
use prefix_match_server.Log.{log_max_len, line, overrun, ends_line, log_line}

ends_line-append : (s : Bytes) → ends_line (s ++ 10 ∷ []) ≡ true
unfolding ends_line
ends_line-append [] = refl
ends_line-append (c ∷ []) = refl
ends_line-append (c ∷ d ∷ s) = ends_line-append (d ∷ s)

-- `_log` hands over the whole text, with one newline at its end, and it fits into the buffer with its
-- NUL; or the text has 1023 bytes or more, and `_log` reaches behind the end of the buffer.
pub log_line-Line :
    (stamp msg : Bytes)
    → ((t : Bytes) × (log_line stamp msg ≡ line t)
        × (ends_line t ≡ true)
        × ((t ≡ stamp ++ msg) ⊎ (t ≡ stamp ++ msg ++ 10 ∷ []))
        × (length t < log_max_len))
      ⊎ ((log_line stamp msg ≡ overrun) × (log_max_len ≤ suc (length (stamp ++ msg))))
unfolding log_line
log_line-Line stamp msg = elim (Bool-cases (leb log_max_len (length (stamp ++ msg)))) [
  | inl b ↦ inr (rw b refl, ground arith)
  | inr b ↦ elim (Bool-cases (ends_line (stamp ++ msg))) [
    | inl c ↦ inl (stamp ++ msg, rw (b, c) refl, c, inl refl, ground arith)
    | inr c ↦ elim (Bool-cases (leb log_max_len (suc (length (stamp ++ msg))))) [
      | inl d ↦ inr (rw (b, c, d) refl, ground arith)
      | inr d ↦
          let lt : suc (length (stamp ++ msg)) < log_max_len = ground arith in
          inl (
            stamp ++ msg ++ 10 ∷ [],
            rw (b, c, d) refl,
            ends_line-append (stamp ++ msg),
            inr refl,
            omega (arith, length-append (stamp ++ msg) (10 ∷ [])),
          )
    ]
  ]
]
