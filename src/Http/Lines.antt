-- ===== src/Http/Lines.antt =====
-- The lines of a response as servers send them: where `find_subsequence` of webtor/src/http.rs finds
-- their end, and how `str::lines` cuts them.
use webtor_rs.Base.{
  ℕ, suc, ◌+◌, ◌<◌, ◌≡◌, ◌≢◌, refl, sym, ap, ◌∙◌, arith, false, List, [], ◌∷◌, ◌++◌, append_assoc,
  append-nil, some, All, length, lt→ltb, ◌==◌, length-append,
}
use webtor_rs.Http.Utf8.{from_utf8}
use webtor_rs.Http.Response.{begins, next_position, find_subsequence, lines}

-- Lines with `\r\n` between them.
unfoldable pub joined : List ℕ → List (List ℕ) → List ℕ
joined line [] = line
joined line (next ∷ more) = line ++ 13 ∷ 10 ∷ joined next more

-- A character of a header line: ASCII, and neither `\r` nor `\n`.
abbrev pub IsPlain : ℕ → Type 0
IsPlain c = (c < 128) × (c ≢ 13) × (c ≢ 10)

-- A line of such characters that is not empty.
abbrev pub IsLine : List ℕ → Type 0
IsLine line = (line ≢ []) × All IsPlain line

unfoldable pub separator : List ℕ
separator = 13 ∷ 10 ∷ 13 ∷ 10 ∷ []

unequal : (a b : ℕ) → a ≢ b → (a == b) ≡ false
unequal a b h = ground arith

-- A byte that is no `\r` begins no separator.
skip :
    (c : ℕ) (rest : List ℕ) (i : ℕ)
    → c ≢ 13
    → find_subsequence rest separator ≡ some i
    → find_subsequence (c ∷ rest) separator ≡ some (suc i)
unfolding find_subsequence begins separator
skip c rest i h e = rw (unequal 13 c (λ s. h (sym s)), e) refl

skip_line :
    (line rest : List ℕ) (i : ℕ)
    → All IsPlain line
    → find_subsequence rest separator ≡ some i
    → find_subsequence (line ++ rest) separator ≡ some (length line + i)
skip_line [] rest i h e = e ∙ ap some (omega arith)
skip_line (c ∷ line) rest i ((s, n, m), h) e =
    skip c (line ++ rest) (length line + i) n (skip_line line rest i h e) ∙ ap some (omega arith)

-- A line's end before another line is no separator.
skip_end :
    (line rest : List ℕ) (i : ℕ)
    → IsLine line
    → find_subsequence (line ++ rest) separator ≡ some i
    → find_subsequence (13 ∷ 10 ∷ (line ++ rest)) separator ≡ some (2 + i)
unfolding find_subsequence begins separator
skip_end [] rest i (n, h) e = absurd (n refl)
skip_end (c ∷ line) rest i (n, ((s, m, k), h)) e =
    let other = unequal 13 c (λ s. m (sym s)) in
    let later : next_position (find_subsequence (line ++ rest) separator) ≡ some i =
      rw other at e in
    rw other (ap (λ o. next_position (next_position o)) later ∙ ap some (omega arith))

found_end : (body : List ℕ) → find_subsequence (separator ++ body) separator ≡ some 0
unfolding find_subsequence begins separator
found_end body = refl

joined_first :
    (line : List ℕ) (more : List (List ℕ)) → (rest : List ℕ) × (joined line more ≡ line ++ rest)
unfolding joined
joined_first line [] = ([], sym (append-nil line))
joined_first line (next ∷ more) = (13 ∷ 10 ∷ joined next more, refl)

pub find_subsequence-joined :
    (line : List ℕ) (more : List (List ℕ)) (body : List ℕ)
    → IsLine line
    → All IsLine more
    → find_subsequence (joined line more ++ (separator ++ body)) separator
      ≡ some (length (joined line more))
unfolding joined
find_subsequence-joined line [] body l h =
    skip_line line (separator ++ body) 0 l.1 (found_end body) ∙ ap some (omega arith)
find_subsequence-joined line (next ∷ more) body l (n, h) =
    let (rest, first) = joined_first next more in
    let cut : joined next more ++ (separator ++ body) ≡ next ++ (rest ++ (separator ++ body)) =
      ap (λ t. t ++ (separator ++ body)) first ∙ append_assoc next rest (separator ++ body) in
    let here =
      ap (λ t. find_subsequence t separator) (sym cut)
      ∙ find_subsequence-joined next more body n h in
    ap (λ t. find_subsequence t separator)
      (append_assoc line (13 ∷ 10 ∷ joined next more) (separator ++ body)
        ∙ ap (λ t. line ++ 13 ∷ 10 ∷ t) cut)
    ∙ skip_line line (13 ∷ 10 ∷ (next ++ (rest ++ (separator ++ body))))
        (2 + length (joined next more)) l.1
        (skip_end next (rest ++ (separator ++ body)) (length (joined next more)) n here)
    ∙ ap some (omega (arith, length-append line (13 ∷ 10 ∷ joined next more)))

pub ascii-from_utf8 : (cs : List ℕ) → All (λ c. c < 128) cs → from_utf8 cs ≡ some cs
unfolding from_utf8
ascii-from_utf8 [] h = refl
ascii-from_utf8 (a ∷ []) (h, t) = rw (lt→ltb a 128 h) refl
ascii-from_utf8 (a ∷ b ∷ []) (h, t) = rw (lt→ltb a 128 h, ascii-from_utf8 (b ∷ []) t) refl
ascii-from_utf8 (a ∷ b ∷ c ∷ []) (h, t) = rw (lt→ltb a 128 h, ascii-from_utf8 (b ∷ c ∷ []) t) refl
ascii-from_utf8 (a ∷ b ∷ c ∷ d ∷ cs) (h, t) =
    rw (lt→ltb a 128 h, ascii-from_utf8 (b ∷ c ∷ d ∷ cs) t) refl

lines_last : (c : ℕ) (line : List ℕ) → All IsPlain (c ∷ line) → lines (c ∷ line) ≡ (c ∷ line) ∷ []
unfolding lines
lines_last c [] ((s, n, m), h) = rw (unequal c 10 m) refl
lines_last c (d ∷ line) ((s, n, m), h) =
    rw (unequal c 13 n, unequal c 10 m, lines_last d line h) refl

lines_cut :
    (c : ℕ) (line rest : List ℕ)
    → All IsPlain (c ∷ line)
    → lines (c ∷ (line ++ 13 ∷ 10 ∷ rest)) ≡ (c ∷ line) ∷ lines rest
unfolding lines
lines_cut c [] rest ((s, n, m), h) = rw (unequal c 13 n, unequal c 10 m) refl
lines_cut c (d ∷ line) rest ((s, n, m), h) =
    rw (unequal c 13 n, unequal c 10 m, lines_cut d line rest h) refl

pub lines-joined :
    (line : List ℕ) (more : List (List ℕ))
    → IsLine line
    → All IsLine more
    → lines (joined line more) ≡ line ∷ more
unfolding joined
lines-joined [] more (n, p) h = absurd (n refl)
lines-joined (c ∷ line) [] (n, p) h = lines_last c line p
lines-joined (c ∷ line) (next ∷ more) (n, p) (l, h) =
    lines_cut c line (joined next more) p ∙ ap (◌∷◌ (c ∷ line)) (lines-joined next more l h)

plain_ascii : (line : List ℕ) → All IsPlain line → All (λ c. c < 128) line
plain_ascii [] h = tt
plain_ascii (c ∷ line) ((s, n, m), h) = (s, plain_ascii line h)

All-append :
    (xs ys : List ℕ) → All (λ c. c < 128) xs → All (λ c. c < 128) ys → All (λ c. c < 128) (xs ++ ys)
All-append [] ys h k = k
All-append (x ∷ xs) ys (n, h) k = (n, All-append xs ys h k)

pub joined_ascii :
    (line : List ℕ) (more : List (List ℕ))
    → IsLine line
    → All IsLine more
    → All (λ c. c < 128) (joined line more)
unfolding joined
joined_ascii line [] l h = plain_ascii line l.1
joined_ascii line (next ∷ more) l (n, h) =
    All-append line (13 ∷ 10 ∷ joined next more) (plain_ascii line l.1)
      (omega arith, (omega arith, joined_ascii next more n h))
