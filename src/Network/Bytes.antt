-- ===== src/Network/Bytes.antt =====
-- `sliceToByteLimit`: a text cut to a number of UTF-8 bytes. A buffer is a list of bytes.
use one_crew.Common.{
  ℕ, zero, suc, ◌+◌, ◌-◌, ◌≤◌, ◌<◌, ◌≡◌, refl, sym, ap, ◌∙◌, inl, inr, Bool, true, false, ◌&&◌,
  List, [], ◌∷◌, ◌++◌, length, take, leb, ltb, if◌then◌else◌, arith, All, Bool-cases, length-append,
  leb→le,
}

-- `(byte & 0xc0) === 0x80`
abbrev pub is_continuation : ℕ → Bool
is_continuation b = leb 128 b && ltb b 192

-- `buf[i]`; the loop only reads inside the buffer.
abbrev pub byte_at : List ℕ → ℕ → ℕ
byte_at [] i = 0
byte_at (b ∷ bs) zero = b
byte_at (b ∷ bs) (suc i) = byte_at bs i

-- The loop, from `end` down.
unfoldable pub back_off : List ℕ → ℕ → ℕ
back_off buf zero = zero
back_off buf (suc i) =
    let less = back_off buf i in if is_continuation (byte_at buf (suc i)) then less else suc i

unfoldable pub slice_to_byte_limit : List ℕ → ℕ → List ℕ
unfolding back_off
slice_to_byte_limit buf limit =
    if leb (length buf) limit then buf else take (back_off buf limit) buf

-- The bytes of one character: a byte that starts it, then continuation bytes.
abbrev pub IsChar : List ℕ → Type 0
IsChar [] = ⊥
IsChar (b ∷ bs) = (is_continuation b ≡ false) × All (λ c. is_continuation c ≡ true) bs

abbrev pub bytes_of : List (List ℕ) → List ℕ
bytes_of [] = []
bytes_of (c ∷ cs) = c ++ bytes_of cs

-- The whole characters that fit, from the first on.
abbrev pub whole_chars : ℕ → List (List ℕ) → List ℕ
whole_chars n [] = []
whole_chars n (c ∷ cs) =
    let rest = whole_chars (n - length c) cs in if leb (length c) n then c ++ rest else []

-- Inside a character the loop goes back to the character's start.
back_inside :
    (b : ℕ) (bs rest : List ℕ) (i : ℕ)
    → All (λ c. is_continuation c ≡ true) bs
    → i ≤ length bs
    → back_off (b ∷ bs ++ rest) i ≡ 0
unfolding back_off
back_inside b bs rest zero h le = refl
back_inside b bs rest (suc i) h le =
    let c : is_continuation (byte_at (bs ++ rest) i) ≡ true = inside bs i h (omega (arith, le)) in
    rw c (back_inside b bs rest i h (omega (arith, le)))
  where
    inside :
        (bs : List ℕ) (i : ℕ)
        → All (λ c. is_continuation c ≡ true) bs
        → i < length bs
        → is_continuation (byte_at (bs ++ rest) i) ≡ true
    inside [] i h lt = absurd (omega (arith, lt))
    inside (x ∷ xs) zero (h, hs) lt = h
    inside (x ∷ xs) (suc i) (h, hs) lt = inside xs i hs (omega (arith, lt))

byte_past : (c rest : List ℕ) (i : ℕ) → byte_at (c ++ rest) (length c + i) ≡ byte_at rest i
byte_past [] rest i = let p : 0 + i ≡ i = omega arith in rw p refl
byte_past (x ∷ c) rest i =
    let p : length (x ∷ c) + i ≡ suc (length c + i) = omega arith in rw p (byte_past c rest i)

-- Past some bytes the loop is the loop on what follows, if a character starts there.
back_past :
    (c rest : List ℕ) (i : ℕ)
    → is_continuation (byte_at rest 0) ≡ false
    → back_off (c ++ rest) (length c + i) ≡ length c + back_off rest i
unfolding back_off
back_past [] rest zero start = refl
back_past (x ∷ c) rest zero start =
    let p : suc (length c) + 0 ≡ suc (length c) = omega arith in
    let q : length c + 0 ≡ length c = omega arith in
    let at : byte_at (c ++ rest) (length c) ≡ byte_at rest 0 = rw (← q) (byte_past c rest 0) in
    rw (p, at, start) refl
back_past c rest (suc i) start =
    let p : length c + suc i ≡ suc (length c + i) = omega arith in
    let at : byte_at (c ++ rest) (suc (length c + i)) ≡ byte_at rest (suc i) =
      rw (← p) (byte_past c rest (suc i)) in
    rw p (elim (Bool-cases (is_continuation (byte_at rest (suc i)))) [
      | inl more ↦ rw (at, more) (back_past c rest i start)
      | inr first ↦ rw (at, first) (sym p)
    ])

abbrev AreChars : List (List ℕ) → Type 0
AreChars = All IsChar

starts : (cs : List (List ℕ)) → AreChars cs → is_continuation (byte_at (bytes_of cs) 0) ≡ false
starts [] h = refl
starts ([] ∷ cs) (h, hs) = elim h [ ]
starts ((b ∷ bs) ∷ cs) ((h, k), hs) = h

take_past : (c rest : List ℕ) (i : ℕ) → take (length c + i) (c ++ rest) ≡ c ++ take i rest
take_past [] rest i = let p : 0 + i ≡ i = omega arith in rw p refl
take_past (x ∷ c) rest i =
    let p : suc (length c) + i ≡ suc (length c + i) = omega arith in
    rw p (ap (λ xs. x ∷ xs) (take_past c rest i))

cut_chars :
    (cs : List (List ℕ)) (n : ℕ)
    → AreChars cs
    → n < length (bytes_of cs)
    → take (back_off (bytes_of cs) n) (bytes_of cs) ≡ whole_chars n cs
cut_chars [] n h lt = absurd (omega (arith, lt))
cut_chars ([] ∷ cs) n (h, hs) lt = elim h [ ]
cut_chars ((b ∷ bs) ∷ cs) n ((h, k), hs) lt = elim (Bool-cases (leb (suc (length bs)) n)) [
  | inl fits ↦
      let le = leb→le (suc (length bs)) n fits in
      let p : n ≡ length (b ∷ bs) + (n - length (b ∷ bs)) = omega (arith, le) in
      let short : n - length (b ∷ bs) < length (bytes_of cs) =
        omega (arith, lt, le, length-append (b ∷ bs) (bytes_of cs)) in
      let i = n - length (b ∷ bs) in
      let back : back_off (bytes_of ((b ∷ bs) ∷ cs)) n
          ≡ length (b ∷ bs) + back_off (bytes_of cs) i =
        ap (back_off (bytes_of ((b ∷ bs) ∷ cs))) p
        ∙ back_past (b ∷ bs) (bytes_of cs) i (starts cs hs) in
      rw (back, fits)
        (take_past (b ∷ bs) (bytes_of cs) (back_off (bytes_of cs) i)
          ∙ ap (λ xs. (b ∷ bs) ++ xs) (cut_chars cs i hs short))
  | inr over ↦
      let le : n ≤ length bs = ground arith in rw (back_inside b bs (bytes_of cs) n k le, over) refl
]

-- A text of characters that is longer than the limit is cut to the whole characters that fit, from the
-- first on: no character is torn, and one that is dropped would not have fitted.
pub slice_whole_chars :
    (cs : List (List ℕ)) (limit : ℕ)
    → AreChars cs
    → limit < length (bytes_of cs)
    → slice_to_byte_limit (bytes_of cs) limit ≡ whole_chars limit cs
unfolding slice_to_byte_limit
slice_whole_chars cs limit h lt =
    let long : leb (length (bytes_of cs)) limit ≡ false = ground arith in
    rw long (cut_chars cs limit h lt)
