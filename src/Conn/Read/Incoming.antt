-- ===== src/Conn/Read/Incoming.antt =====
-- The bytes that the reads to come deliver, and the allocations that fail.
use prefix_match_server.Prelude.{
  ℕ, ◌≡◌, refl, sym, ap, ◌∙◌, Bool, true, false, List, [], ◌∷◌, ◌++◌, append_assoc, Bytes, take,
  drop, take-append-drop, length, arith,
}
use prefix_match_server.Conn.State.{
  Io, received, would_block, failed, read, put_back, head_flag, tail_flags,
}

-- The bytes that the reads to come deliver.
abbrev pub incoming : List Io → Bytes
incoming [] = []
incoming (received bytes ∷ ios) = bytes ++ incoming ios
incoming (would_block ∷ ios) = incoming ios
incoming (failed ∷ ios) = incoming ios

incoming-put_back :
    (rest : Bytes) (ios : List Io) → incoming (put_back rest ios) ≡ rest ++ incoming ios
unfolding put_back
incoming-put_back [] ios = refl
incoming-put_back (c ∷ rest) ios = refl

-- The bytes that a read returns.
abbrev pub got : Io → Bytes
got (received bytes) = bytes
got would_block = []
got failed = []

pub incoming-read :
    (avail : ℕ) (ios : List Io)
    → got (read avail ios).0 ++ incoming (read avail ios).1 ≡ incoming ios
unfolding read
incoming-read avail [] = refl
incoming-read avail (received bytes ∷ ios) =
    ap (◌++◌ (take avail bytes)) (incoming-put_back (drop avail bytes) ios)
    ∙ sym (append_assoc (take avail bytes) (drop avail bytes) (incoming ios))
    ∙ ap (λ b. b ++ incoming ios) (take-append-drop avail bytes)
incoming-read avail (would_block ∷ ios) = refl
incoming-read avail (failed ∷ ios) = refl

pub no_bytes : (bytes : Bytes) → length bytes ≡ 0 → bytes ≡ []
no_bytes [] e = refl
no_bytes (c ∷ bytes) e = absurd (omega arith)

-- One of the allocations to come fails.
abbrev pub Refused : List Bool → Type 0
Refused [] = ⊥
Refused (false ∷ bs) = Unit {0}
Refused (true ∷ bs) = Refused bs

pub Refused-head : (bs : List Bool) → head_flag bs ≡ false → Refused bs
Refused-head [] e = absurd (cc)
Refused-head (true ∷ bs) e = absurd (cc)
Refused-head (false ∷ bs) e = tt

pub Refused-tail : (bs : List Bool) → Refused (tail_flags bs) → Refused bs
Refused-tail [] r = r
Refused-tail (true ∷ bs) r = r
Refused-tail (false ∷ bs) r = tt
