-- ===== src/Startup/Address.antt =====
-- The address that a server publishes, and the servers and clients that connect to it.
use amazon_dynamo_db.Prelude.{
  ℕ, suc, ◌-◌, ◌/◌, ◌%◌, ◌^◌, ◌≤◌, ◌<◌, ◌≡◌, ◌≢◌, refl, ap, ◌∙◌, sym, pos, negsuc, some, none, true,
  ◌∷◌, ◌++◌, take, take-length_ge, subst, arith, All,
}
use native.Mathlib.Decide.{dec_lt}
use amazon_dynamo_db.Memory.{ok, Memory}
use amazon_dynamo_db.Memory.Spend.{IsAmple, spend}
use amazon_dynamo_db.Strings.{Bytes}
use amazon_dynamo_db.Atoi.Decimal.{decimal, length-decimal, atoi-negative}
use amazon_dynamo_db.Network.{World, done, htons}
use amazon_dynamo_db.Remote.{System, rtable_connect}
use amazon_dynamo_db.Remote.Connect.{rtable_connect-decimal, rtable_connect-negative}
use amazon_dynamo_db.Commands.{print_string}
use amazon_dynamo_db.Startup.{short_of, width, print_int, ip_port, published}

fits_width : (n : ℕ) → n < 10 ^ 5 → (n < 10 ^ width n) × (0 < width n) × (width n ≤ 5)
unfolding width
fits_width n h = ground arith

published-low :
    (behind : Bytes) (port : ℕ) (m : Memory)
    → port < 2 ^ 15
    → published (0 ∷ behind) (short_of (pos port)) m
      ≡ ok (ip_port ++ b':' ∷ decimal (width port) port, m)
unfolding published print_string short_of print_int
published-low behind port m small =
    let wide = fits_width port (omega arith) in
    let whole : take 5 (decimal (width port) port) ≡ decimal (width port) port =
      take-length_ge 5 (decimal (width port) port)
        (omega (arith, length-decimal (width port) port)) in
    let printed : short_of (pos port) ≡ pos port = ground arith in ground (arith, printed, whole)

narrow : (n : ℕ) → n < 10000 → width n ≤ 4
unfolding width
narrow n h = ground arith

five : (n : ℕ) → 10000 ≤ n → n < 10 ^ 5 → width n ≡ 5
unfolding width
five n h k = ground arith

take-decimal_five : (n : ℕ) → take 4 (decimal 5 n) ≡ decimal 4 (n / 10)
unfolding decimal
take-decimal_five n = refl

ip_port-plain : All (λ x. x ≢ 58) ip_port
ip_port-plain = (
  omega arith,
  (
    omega arith,
    (
      omega arith,
      (omega arith, (omega arith, (omega arith, (omega arith, (omega arith, (omega arith, tt)))))),
    ),
  ),
)

-- The number after the minus sign, which may have lost its last digit.
take-decimal :
    (n : ℕ)
    → 0 < n
    → n < 10 ^ 5
    → (w : ℕ) × (k : ℕ) × (take 4 (decimal (width n) n) ≡ decimal (suc w) k)
      × (0 < k)
      × (k < 10 ^ suc w)
      × (k ≤ n)
take-decimal n some_n h =
    let wide = fits_width n h in
    let one : suc (width n - 1) ≡ width n = omega (arith, wide) in
    elim (dec_lt n 10000) [
      | yes short ↦ (
        width n - 1,
        n,
        take-length_ge 4 (decimal (width n) n)
              (omega (arith, length-decimal (width n) n, narrow n short))
            ∙ ap (λ w. decimal w n) (sym one),
        some_n,
        subst (λ w. n < 10 ^ w) (sym one) wide.0,
        omega arith,
      )
      | no long ↦ (
        3,
        n / 10,
        ap (λ w. take 4 (decimal w n)) (five n (omega arith) h) ∙ take-decimal_five n,
        omega arith,
        omega arith,
        omega arith,
      )
    ]

published-high :
    (behind : Bytes) (port : ℕ) (m : Memory)
    → (2 ^ 15 ≤ port) × (port < 2 ^ 16)
    → (w : ℕ) × (k : ℕ) × (published (0 ∷ behind) (short_of (pos port)) m
        ≡ ok (ip_port ++ b':' ∷ b'-' ∷ decimal (suc w) k, m))
      × (0 < k)
      × (k < 10 ^ suc w)
      × (k ≤ 2 ^ 15)
unfolding published print_string short_of print_int
published-high behind port m sized =
    let n : ℕ = suc (2 ^ 16 - suc port) in
    let (w, k, cut, some_k, fits, below) = take-decimal n (omega arith) (omega arith) in
    let printed : short_of (pos port) ≡ negsuc (2 ^ 16 - suc port) = ground arith in
    (w, k, ground (arith, printed, cut), some_k, fits, omega arith)

module _ {A : Type 0} (sys : System A) (behind : Bytes) (port : ℕ) (w : World) (m : Memory)
    (ample : IsAmple w.memory) where
  -- The address that a server publishes for a port below 2^15 is one that rtable_connect reads
  -- back: it connects to 127.0.0.1 and that port, when every request for memory is granted, a zero
  -- byte stands behind the array of the address, and the system gives a socket, an address and a
  -- connection.
  pub published-connect :
      (fd : ℕ) (a : A)
      → port < 2 ^ 15
      → (sys.socket ≡ some fd) × (sys.inet_pton ip_port ≡ some a)
      → sys.connects a (htons (port % 2 ^ 16)) ≡ true
      → (text : Bytes) × (published (0 ∷ behind) (short_of (pos port)) m ≡ ok (text, m))
        × (rtable_connect sys (some text) w
            ≡ done
                (some (record { server_address = ip_port; server_port = pos port; sockfd = fd }))
                (record w { memory = spend 2 0 w.memory }))
  published-connect fd a small answers made =
      let wide = fits_width port (omega arith) in
      let one : suc (width port - 1) ≡ width port = omega (arith, wide) in
      let connects =
        rtable_connect-decimal sys ip_port (width port - 1) port fd a w ample ip_port-plain
          (subst (λ d. port < 10 ^ d) (sym one) wide.0, omega arith) answers made in
      (
        ip_port ++ b':' ∷ decimal (width port) port,
        published-low behind port m small,
        ap (λ d. rtable_connect sys (some (ip_port ++ b':' ∷ decimal d port)) w) (sym one)
            ∙ connects,
      )

  -- The address that a server publishes for a port of 2^15 or more, while below 2^16, has a
  -- negative port, so that rtable_connect gives NULL and frees what it took, when every request for
  -- memory is granted and a zero byte stands behind the array of the address.
  pub published-refused :
      (2 ^ 15 ≤ port) × (port < 2 ^ 16)
      → (text : Bytes) × (published (0 ∷ behind) (short_of (pos port)) m ≡ ok (text, m))
        × (rtable_connect sys (some text) w ≡ done none (record w { memory = spend 2 2 w.memory }))
  published-refused sized =
      let (d, k, text, some_k, fits, below) = published-high behind port m sized in
      (
        ip_port ++ b':' ∷ b'-' ∷ decimal (suc d) k,
        text,
        rtable_connect-negative sys ip_port (b'-' ∷ decimal (suc d) k) (k - 1) w ample ip_port-plain
            (atoi-negative d k fits some_k (omega arith)),
      )
