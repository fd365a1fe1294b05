-- ===== src/Tests/Text.antt =====
-- The string helpers, the Chinese map and the wire format at concrete inputs.
use prefix_match_server.Prelude.{
  ℕ, ◌+◌, ◌≤◌, ◌⊎◌, none, length, ◌≡◌, ◌↔◌, refl, true, false, inl, inr, some, List, [], ◌∷◌, ◌++◌,
  arith, Bytes, codes, take, Elem, bytes_eq,
}
use prefix_match_server.Util.Chars.{contains}
use prefix_match_server.Util.Trim.{trim}
use prefix_match_server.Util.Sep.{sepstr}
use prefix_match_server.Util.Utf8.{finished, unfinished, walk, utf8_len}
use prefix_match_server.Util.Utf8.Encoding.{encode, text, emit_all, walk_finishes}
use prefix_match_server.Util.Delstr.{delstr}
use prefix_match_server.Util.Delstr.InPlace.{without, delstr-without}
use prefix_match_server.Util.Tokens.{tokenize_command}
use prefix_match_server.Util.Tokens.Words.{words, left, tokenize_command-words}
use prefix_match_server.Letters.Product.{get_all_results}
use prefix_match_server.Letters.Product.Choices.{Chooses, get_all_results-Chooses}
use prefix_match_server.Letters.Table.{HashMap, lookup, read_chinese_map}
use prefix_match_server.Letters.Table.Entries.{file_reading, read_chinese_map-reading}
use prefix_match_server.Letters.Convert.{
  convert_to_letters, index_letters, words_of, push_found, all_english_char,
}
use prefix_match_server.Letters.Convert.Spelling.{
  readings, initials, none_ascii, all_ascii, convert_to_letters-readings, convert_to_letters_hangs,
  index_letters-initials,
}
use prefix_match_server.Wire.Response.{response_body, response_header, client_read}
use prefix_match_server.Wire.Response.RoundTrip.{client_read-response_body, response_header_status}

trim_run : trim (codes " a b\r\t") (codes " \t\r") true ≡ codes "a b"
unfolding trim contains
trim_run = refl

sepstr_run : sepstr (codes "a  bc ") (codes " ") false ≡ some (codes "a" ∷ codes "bc" ∷ [])
unfolding sepstr contains
sepstr_run = refl

delstr_run : delstr (codes " a\t= b") (codes " \t") ≡ (codes "a=b" ++ 0 ∷ 0 ∷ 0 ∷ [], 3)
unfolding delstr contains
delstr_run = refl

delstr-without_example : delstr (codes " a b") (codes " ") ≡ (codes "ab" ++ 0 ∷ 0 ∷ [], 2)
unfolding without contains
delstr-without_example = delstr-without (codes " a b") (codes " ")

-- U+4F60 and U+597D, the Chinese for "hello".
abbrev hello : List ℕ
hello = 0x4f60 ∷ 0x597d ∷ []

-- Each reading of the first character, and the one of the second.
abbrev table : HashMap
table =
    (0xe4 ∷ 0xbd ∷ 0xa0 ∷ [], codes "ni" ∷ codes "na" ∷ [])
    ∷ (0xe5 ∷ 0xa5 ∷ 0xbd ∷ [], codes "hao" ∷ [])
    ∷ []

walk_finishes_example :
    walk (λ (out : List Bytes) key. out ++ key ∷ []) 7 (text hello) []
    ≡ finished (emit_all (λ out key. out ++ key ∷ []) [] hello)
walk_finishes_example =
    walk_finishes (λ (out : List Bytes) key. out ++ key ∷ []) hello 7 [] (omega arith)
      (unfold text encode in omega arith)

get_all_results_run :
    get_all_results ((codes "ni" ∷ codes "na" ∷ []) ∷ (codes "hao" ∷ codes "h" ∷ []) ∷ []) []
    ≡ codes "nihao" ∷ codes "nahao" ∷ codes "nih" ∷ codes "nah" ∷ []
unfolding get_all_results
get_all_results_run = refl

get_all_results-Chooses_example :
    Elem (codes "nah") (get_all_results ((codes "ni" ∷ codes "na" ∷ []) ∷ (codes "h" ∷ []) ∷ []) [])
    ↔ Chooses ((codes "ni" ∷ codes "na" ∷ []) ∷ (codes "h" ∷ []) ∷ []) (codes "nah")
get_all_results-Chooses_example =
    get_all_results-Chooses (codes "ni" ∷ codes "na" ∷ []) ((codes "h" ∷ []) ∷ []) [] (codes "nah")
      (((λ e. cc), omega arith), tt)

index_letters_run :
    index_letters 7 (text hello) table
    ≡ finished (codes "nihao" ∷ codes "nahao" ∷ codes "nh" ∷ codes "nh" ∷ [])
unfolding index_letters words_of push_found all_english_char text encode walk utf8_len lookup
    bytes_eq get_all_results
index_letters_run = refl

-- With a tab and a weight behind the name, as `create_index` passes the line, the initials are gone.
index_letters_of_line :
    index_letters 10 (text (0x4f60 ∷ 0x597d ∷ b'\t' ∷ b'7' ∷ [])) table
    ≡ finished (codes "nihao" ∷ codes "nahao" ∷ [])
unfolding index_letters words_of push_found all_english_char text encode walk utf8_len lookup
    bytes_eq get_all_results
index_letters_of_line = refl

index_letters-initials_example :
    index_letters 7 (text hello) table
    ≡ finished (
        get_all_results (readings table hello) []
        ++ get_all_results (initials (readings table hello)) [])
unfolding none_ascii
index_letters-initials_example =
    index_letters-initials table hello 7 (omega arith) (unfold all_ascii in refl)
      (unfold text encode in omega arith)

convert_to_letters-readings_example :
    convert_to_letters 7 (text hello) table ≡ finished (get_all_results (readings table hello) [])
convert_to_letters-readings_example =
    convert_to_letters-readings table hello 7 (omega arith) (unfold all_ascii in refl)
      (unfold text encode in omega arith)

convert_to_letters_hangs_example :
    convert_to_letters 1000 (text hello ++ 0x80 ∷ codes "a") table ≡ unfinished
convert_to_letters_hangs_example =
    convert_to_letters_hangs table hello 0x80 (codes "a") 1000 (omega arith)
      (inr (inl (omega arith))) (omega arith)

read_chinese_map-reading_example :
    (m' : HashMap) × (read_chinese_map (some (codes "x y" ∷ codes "x z\r" ∷ [])) table ≡ some m')
    × ((k : Bytes)
        → lookup k m' ≡ file_reading k (codes "x y" ∷ codes "x z\r" ∷ []) (lookup k table))
read_chinese_map-reading_example = read_chinese_map-reading (codes "x y" ∷ codes "x z\r" ∷ []) table

client_read-response_body_example :
    client_read (response_body 1 (codes "ab" ∷ codes "c" ∷ [])) ≡ some (codes "ab" ∷ [])
client_read-response_body_example =
    client_read-response_body 1 (codes "ab" ∷ codes "c" ∷ []) (omega arith) (omega arith)

-- The status of the server's only error.
response_header_status_example : take 2 (response_header 0x82 13 (0 ∷ 0 ∷ [])) ≡ 0x81 ∷ 0 ∷ []
response_header_status_example = response_header_status 0x82 13 (0 ∷ 0 ∷ []) (omega arith)

tokenize_command-words_example :
    let t = tokenize_command (codes " get  a b c") 3 in
    (t.values ++ words (left t.terminal) ≡ words (codes " get  a b c"))
    × (length t.values + 1 ≤ 3)
    × ((t.terminal ≡ none) ⊎ (length t.values + 1 ≡ 3))
tokenize_command-words_example = tokenize_command-words (codes " get  a b c") 3 (omega arith)
