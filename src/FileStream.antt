-- ===== src/FileStream.antt =====
-- The input streams of apps/wedding_cake/include/hashes_order_file.hpp and
-- ls_suffix_entries_file.hpp: `std::ifstream` on the bytes of a file.
use wedding_cake_cpp.Base.{
  ℕ, ◌+◌, ◌-◌, ◌<◌, ◌≡◌, refl, sym, ap, ◌∙◌, drop-drop, drop-append, ◌^◌, List, [], ◌++◌, Bool,
  true, false, not, ◌&&◌, if◌then◌else◌, ltb, lt→ltb, le→ltb, arith, length, take, drop,
  take-append, take_all, inl, inr, Bool-cases, length-drop,
}

pub record InStream : Type 0 where
  pub bytes : List ℕ
  pub position : ℕ
  pub eofbit : Bool
  pub failbit : Bool

abbrev pub opened : List ℕ → InStream
opened bytes = record { bytes = bytes; position = 0; eofbit = false; failbit = false }

abbrev pub good : InStream → Bool
good s = not s.eofbit && not s.failbit

abbrev pub clear : InStream → InStream
clear s = record s { eofbit = false; failbit = false }

-- Whether peek() returns eof(), and the stream afterwards.
unfoldable pub peek_eof : InStream → Bool × InStream
peek_eof s =
    if good s
    then (if ltb s.position (length s.bytes)
        then (false, s)
        else (true, record s { eofbit = true }))
    else (true, record s { failbit = true })

-- read(buffer, n): the bytes that were read, gcount() of them.
unfoldable pub read : ℕ → InStream → List ℕ × InStream
read n s =
    let got = take n (drop s.position s.bytes) in
    if good s
    then (if ltb (length got) n
        then (got, record s { position = length s.bytes; eofbit = true; failbit = true })
        else (got, record s { position = s.position + n }))
    else ([], record s { failbit = true })

-- seekg to an offset, which a cast to a signed type may have made negative.
unfoldable pub seekg : ℕ → InStream → InStream
seekg offset s =
    if s.failbit
    then record s { eofbit = false }
    else (if ltb offset (2 ^ 63)
        then record s { position = offset; eofbit = false }
        else record s { eofbit = false; failbit = true })

-- A stream in order that has these bytes in front of it.
pub record IsAt (s : InStream) (ahead : List ℕ) : Type 0 where
  pub no_eof : s.eofbit ≡ false
  pub no_fail : s.failbit ≡ false
  pub rest : drop s.position s.bytes ≡ ahead

pub read-IsAt :
    (n : ℕ) (s : InStream) (xs ys : List ℕ)
    → IsAt s (xs ++ ys)
    → length xs ≡ n
    → ((read n s).0 ≡ xs)
      × IsAt (read n s).1 ys
      × ((read n s).1.bytes ≡ s.bytes)
      × ((read n s).1.position ≡ s.position + n)
unfolding read
read-IsAt n s xs ys h len =
    let got : take n (drop s.position s.bytes) ≡ xs = rw (h.rest) (take-append n xs ys len) in
    let whole : ltb (length xs) n ≡ false = le→ltb (length xs) n (omega arith) in
    let behind : drop (s.position + n) s.bytes ≡ ys =
      sym (drop-drop s.position n s.bytes) ∙ (ap (drop n) h.rest ∙ drop-append n xs ys len) in
    rw (h.no_eof, h.no_fail, got, whole)
      (refl, record { no_eof = refl; no_fail = refl; rest = behind }, refl, refl)

pub peek_eof-more :
    (s : InStream) (ahead : List ℕ) → IsAt s ahead → 0 < length ahead → peek_eof s ≡ (false, s)
unfolding peek_eof
peek_eof-more s ahead h some_ahead =
    let len : length ahead ≡ length s.bytes - s.position =
      ap (λ (t : List ℕ). length t) (sym h.rest) ∙ length-drop s.position s.bytes in
    rw (h.no_eof, h.no_fail, lt→ltb s.position (length s.bytes) (omega arith)) refl

-- At the end of the file.
pub peek_eof-end : (s : InStream) → IsAt s [] → peek_eof s ≡ (true, record s { eofbit = true })
unfolding peek_eof
peek_eof-end s h =
    let len : 0 ≡ length s.bytes - s.position =
      ap (λ (t : List ℕ). length t) (sym h.rest) ∙ length-drop s.position s.bytes in
    rw (h.no_eof, h.no_fail, le→ltb s.position (length s.bytes) (omega arith)) refl

-- A read that gets fewer bytes than it asks for, and what comes after it.
pub read-short :
    (n : ℕ) (s : InStream) (ahead : List ℕ)
    → IsAt s ahead
    → length ahead < n
    → ((read n s).0 ≡ ahead) × ((read n s).1.failbit ≡ true)
unfolding read
read-short n s ahead h short =
    let got : take n (drop s.position s.bytes) ≡ ahead =
      rw (h.rest) (take_all n ahead (omega arith)) in
    rw (h.no_eof, h.no_fail, got, lt→ltb (length ahead) n short) (refl, refl)

pub read-failed :
    (n : ℕ) (s : InStream) → s.failbit ≡ true → ((read n s).0 ≡ []) × ((read n s).1.failbit ≡ true)
unfolding read
read-failed n s h = elim (Bool-cases s.eofbit) [
  | inl e ↦ rw (h, e) (refl, refl)
  | inr e ↦ rw (h, e) (refl, refl)
]

pub peek_eof-failed : (s : InStream) → s.failbit ≡ true → (peek_eof s).0 ≡ true
unfolding peek_eof
peek_eof-failed s h = elim (Bool-cases s.eofbit) [ inl e ↦ rw (h, e) refl | inr e ↦ rw (h, e) refl ]
