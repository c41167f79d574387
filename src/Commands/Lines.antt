-- ===== src/Commands/Lines.antt =====
-- The lines of the terminal and their requests.
use amazon_dynamo_db.Prelude.{
  ℕ, ◌<◌, ◌≡◌, ◌≢◌, refl, ap, ◌∙◌, none, some, [], ◌∷◌, ◌++◌, length, All, All-append, arith, ◌==◌,
  ◌||◌, ◌+◌, false, length-append, list_laws,
}
use amazon_dynamo_db.Strings.{Bytes, strcmp}
use amazon_dynamo_db.Commands.{
  until, after, skip, token_of, strtok, strtok_rest, Request, blank, put, get, del, size, getkeys,
  gettable, stats, quit, incomplete, unknown, put_words, put_of, request_of, parse, fgets_lines,
  read_lines,
}

-- The text of a request, as it is typed.
abbrev pub print : Request → Bytes
print blank = []
print (put key value) = b'p' ∷ b'u' ∷ b't' ∷ b' ' ∷ key ++ b' ' ∷ value
print (get none) = b'g' ∷ b'e' ∷ b't' ∷ []
print (get (some key)) = b'g' ∷ b'e' ∷ b't' ∷ b' ' ∷ key
print (del none) = b'd' ∷ b'e' ∷ b'l' ∷ []
print (del (some key)) = b'd' ∷ b'e' ∷ b'l' ∷ b' ' ∷ key
print size = b's' ∷ b'i' ∷ b'z' ∷ b'e' ∷ []
print getkeys = b'g' ∷ b'e' ∷ b't' ∷ b'k' ∷ b'e' ∷ b'y' ∷ b's' ∷ []
print gettable = b'g' ∷ b'e' ∷ b't' ∷ b't' ∷ b'a' ∷ b'b' ∷ b'l' ∷ b'e' ∷ []
print stats = b's' ∷ b't' ∷ b'a' ∷ b't' ∷ b's' ∷ []
print quit = b'q' ∷ b'u' ∷ b'i' ∷ b't' ∷ []
print incomplete = b'p' ∷ b'u' ∷ b't' ∷ []
print unknown = b'?' ∷ []

-- No byte of the text is `c`.
abbrev pub Lacks : ℕ → Bytes → Type 0
Lacks c xs = All (λ x. x ≢ c) xs

-- The words are not empty and stay on the line, and the key of a `put` is one word.
abbrev pub IsTyped : Request → Type 0
IsTyped (put key value) =
    (0 < length key) × Lacks b' ' key × Lacks b'\n' key × (0 < length value) × Lacks b'\n' value
IsTyped (get (some key)) = (0 < length key) × Lacks b'\n' key
IsTyped (del (some key)) = (0 < length key) × Lacks b'\n' key
IsTyped _ = Unit {0}

-- The text has no zero byte, and fits the buffer of `fgets` with its line feed.
abbrev pub IsLine : Request → Type 0
IsLine r = Lacks 0 (print r) × (length (print r) < 1023)

until-none : (c : ℕ) (xs : Bytes) → Lacks c xs → until c xs ≡ xs
unfolding until
until-none c [] h = refl
until-none c (x ∷ xs) h = ground (arith, h.0, until-none c xs h.1)

until-append : (c : ℕ) (xs ys : Bytes) → Lacks c xs → until c (xs ++ c ∷ ys) ≡ xs
unfolding until
until-append c [] ys h = ground arith
until-append c (x ∷ xs) ys h = ground (arith, h.0, until-append c xs ys h.1)

after-append : (c : ℕ) (xs ys : Bytes) → Lacks c xs → after c (xs ++ c ∷ ys) ≡ ys
unfolding after
after-append c [] ys h = ground arith
after-append c (x ∷ xs) ys h = ground (arith, h.0, after-append c xs ys h.1)

strtok_rest-some : (xs : Bytes) → 0 < length xs → strtok_rest xs ≡ some xs
unfolding strtok_rest
strtok_rest-some [] h = absurd (omega arith)
strtok_rest-some (x ∷ xs) h = refl

strtok-append :
    (key rest : Bytes)
    → 0 < length key
    → Lacks b' ' key
    → strtok (key ++ b' ' ∷ rest) ≡ (some key, rest)
unfolding strtok token_of skip
strtok-append [] rest h plain = absurd (omega arith)
strtok-append (x ∷ key) rest h plain =
    ground (
      arith,
      plain.0,
      until-append b' ' (x ∷ key) rest plain,
      after-append b' ' (x ∷ key) rest plain,
    )

-- The text of a request stays on its line.
print-Lacks : (r : Request) → IsTyped r → Lacks b'\n' (print r)
print-Lacks blank h = tt
print-Lacks (put key value) h = (
  omega arith,
  (
    omega arith,
    (
      omega arith,
      (omega arith, All-append (λ x. x ≢ b'\n') key (b' ' ∷ value) h.2 (omega arith, h.4)),
    ),
  ),
)
print-Lacks (get none) h = (omega arith, (omega arith, (omega arith, tt)))
print-Lacks (get (some key)) h = (omega arith, (omega arith, (omega arith, (omega arith, h.1))))
print-Lacks (del none) h = (omega arith, (omega arith, (omega arith, tt)))
print-Lacks (del (some key)) h = (omega arith, (omega arith, (omega arith, (omega arith, h.1))))
print-Lacks size h = (omega arith, (omega arith, (omega arith, (omega arith, tt))))
print-Lacks getkeys h = (
  omega arith,
  (omega arith, (omega arith, (omega arith, (omega arith, (omega arith, (omega arith, tt)))))),
)
print-Lacks gettable h = (
  omega arith,
  (
    omega arith,
    (omega arith, (omega arith, (omega arith, (omega arith, (omega arith, (omega arith, tt)))))),
  ),
)
print-Lacks stats h = (omega arith, (omega arith, (omega arith, (omega arith, (omega arith, tt)))))
print-Lacks quit h = (omega arith, (omega arith, (omega arith, (omega arith, tt))))
print-Lacks incomplete h = (omega arith, (omega arith, (omega arith, tt)))
print-Lacks unknown h = (omega arith, tt)

request_of-print : (r : Request) → IsTyped r → request_of (strtok (print r)) ≡ r
unfolding request_of until strtok token_of skip after put_of put_words strtok_rest strcmp
request_of-print blank h = refl
request_of-print (put key value) h =
    ap put_of (strtok-append key value h.0 h.1)
    ∙ ap (put_words (some key)) (strtok_rest-some value h.3)
request_of-print (get none) h = refl
request_of-print (get (some key)) h = ap get (strtok_rest-some key h.0)
request_of-print (del none) h = refl
request_of-print (del (some key)) h = ap del (strtok_rest-some key h.0)
request_of-print size h = refl
request_of-print getkeys h = refl
request_of-print gettable h = refl
request_of-print stats h = refl
request_of-print quit h = refl
request_of-print incomplete h = refl
request_of-print unknown h = refl

-- A line that fits is read in one piece.
fgets_lines-append :
    (begun xs rest : Bytes)
    → Lacks b'\n' xs
    → length begun + length xs < 1023
    → fgets_lines begun (xs ++ b'\n' ∷ rest) ≡ (begun ++ xs ++ b'\n' ∷ []) ∷ fgets_lines [] rest
unfolding fgets_lines
fgets_lines-append begun [] rest plain room =
    let shape : (begun ++ []) ++ b'\n' ∷ [] ≡ begun ++ b'\n' ∷ [] = simp list_laws in rw shape refl
fgets_lines-append begun (x ∷ xs) rest plain room =
    let wide = length-append begun (x ∷ []) in
    let next = fgets_lines-append (begun ++ x ∷ []) xs rest plain.1 (omega (arith, wide, room)) in
    let not_yet : (x == b'\n') || (length begun == 1022) ≡ false = ground (arith, plain.0, room) in
    let shape : ((begun ++ x ∷ []) ++ xs) ++ b'\n' ∷ [] ≡ (begun ++ x ∷ xs) ++ b'\n' ∷ [] =
      simp list_laws in
    ground (arith, not_yet, next, shape)

-- A request that is typed as a line is read by fgets in one piece, with what follows left for the
-- next lines, and is parsed as that request, when its words are not empty and have no line feed,
-- the key of a put has no space, and the line has no zero byte and at most 1022 bytes before its
-- line feed.
pub parse-print :
    (r : Request) (rest : Bytes)
    → IsTyped r
    → IsLine r
    → (read_lines (print r ++ b'\n' ∷ rest) ≡ (print r ++ b'\n' ∷ []) ∷ read_lines rest)
      × (parse (print r ++ b'\n' ∷ []) ≡ r)
unfolding parse read_lines
parse-print r rest typed fits =
    let whole =
      until-none 0 (print r ++ b'\n' ∷ [])
        (All-append (λ x. x ≢ 0) (print r) (b'\n' ∷ []) fits.0 (omega arith, tt)) in
    (
      fgets_lines-append [] (print r) rest (print-Lacks r typed) (omega (arith, fits.1)),
      ap (λ l. request_of (strtok (until b'\n' l))) whole
          ∙ (ap (λ l. request_of (strtok l)) (until-append b'\n' (print r) [] (print-Lacks r typed))
              ∙ request_of-print r typed),
    )
