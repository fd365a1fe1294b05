-- ===== src/Util/Tokens.antt =====
-- `tokenize_command` of util.cpp.
pub mod Words
use prefix_match_server.Prelude.{
  ℕ, suc, ◌+◌, ◌-◌, Bool, Option, none, some, List, [], ◌∷◌, ◌++◌, Bytes, ◌==◌, if◌then◌else◌,
}
use prefix_match_server.Util.Sep.{is_empty}

-- The tokens in front of the terminal one, and the value of that one: `none` is NULL.
pub record Tokens : Type 0 where
  pub values : List Bytes
  pub terminal : Option Bytes

-- `*e == '\0' ? NULL : e`
unfoldable pub unprocessed : Bytes → Option Bytes
unprocessed [] = none
unprocessed (c ∷ e) = some (c ∷ e)

-- The `for` loop and what follows it: `s` is the bytes from `s` to `e`, and the list those from `e` on.
unfoldable pub tokens_loop : ℕ → ℕ → Bytes → Bytes → Tokens
unfolding unprocessed is_empty
tokens_loop max_tokens ntokens s [] = record {
  values = if is_empty s then [] else s ∷ [];
  terminal = none;
}
tokens_loop max_tokens ntokens s (c ∷ e) =
    let ended = tokens_loop max_tokens (ntokens + 1) [] e in
    let skipped = tokens_loop max_tokens ntokens [] e in
    let passed = tokens_loop max_tokens ntokens (s ++ c ∷ []) e in
    if c == 32
    then if is_empty s
      then skipped
      else if ntokens + 1 == max_tokens - 1
      then record { values = s ∷ []; terminal = unprocessed e }
      else record { values = s ∷ ended.values; terminal = ended.terminal }
    else passed

unfoldable pub tokenize_command : Bytes → ℕ → Tokens
unfolding tokens_loop
tokenize_command command max_tokens = tokens_loop max_tokens 0 [] command
