-- ===== src/Chain/Neighbours.antt =====
-- The next and the previous server of a chain whose nodes ZooKeeper has numbered.
use amazon_dynamo_db.Prelude.{
  ℕ, ◌≤◌, ◌<◌, ◌≡◌, ◌⊎◌, inl, inr, refl, ap, sym, ◌∙◌, pos, ◌≤ℤ◌, List, [], ◌∷◌, ◌++◌, map, All,
  Option, arith, int_limit, subst,
}
use amazon_dynamo_db.Strings.{Bytes, strcmp}
use amazon_dynamo_db.Assoc.Sorted.{same_self}
use amazon_dynamo_db.Atoi.{atoi, digits, skip_spaces}
use amazon_dynamo_db.Atoi.Decimal.{decimal, atoi-decimal}
use amazon_dynamo_db.Skeleton.{int_of_size}
use amazon_dynamo_db.Chain.{
  begining, no_next, no_previous, get_node_id, scan_next, scan_previous, nearer_above, none_address,
  get_previous_server,
}
use amazon_dynamo_db.Chain.Nearest.{Among, scan_next-IsNearestAbove, scan_previous-IsNearestBelow}

-- The name that ZooKeeper gives to the node with this number: ten digits.
abbrev pub node_name : ℕ → Bytes
node_name n = begining ++ decimal 10 n

-- What `getNodeId` makes of "node9999999999": 9999999999 does not fit an `int`.
abbrev pub next_limit : ℕ
next_limit = 1410065407

pub get_node_id-node_name : (n : ℕ) → n < int_limit → get_node_id (node_name n) ≡ pos n
unfolding get_node_id strcmp
get_node_id-node_name n h = atoi-decimal 9 n (omega arith) h

pub get_node_id-no_next : get_node_id no_next ≡ pos next_limit
unfolding get_node_id strcmp atoi digits skip_spaces int_of_size
get_node_id-no_next = refl

pub get_node_id-no_previous : get_node_id no_previous ≡ pos 0
unfolding get_node_id strcmp atoi digits skip_spaces int_of_size
get_node_id-no_previous = refl

pub All-Among : (P : Bytes → Type 0) (r : Bytes) (cs : List Bytes) → All P cs → Among r cs → P r
All-Among P r [] all among = absurd among
All-Among P r (c ∷ cs) all (inl here) = subst P (sym here) all.0
All-Among P r (c ∷ cs) all (inr later) = All-Among P r cs all.1 later

abbrev pub names : List ℕ → List Bytes
names = map node_name

abbrev pub Numbered : ℕ → List ℕ → Type 0
Numbered n ns = Among (node_name n) (names ns)

-- A node of the list by its number.
pub number_of :
    (P : ℕ → Type 0) (r : Bytes) (ns : List ℕ)
    → Among r (names ns)
    → All P ns
    → (k : ℕ) × (r ≡ node_name k) × P k
number_of P r [] among all = absurd among
number_of P r (n ∷ ns) (inl here) all = (n, here, all.0)
number_of P r (n ∷ ns) (inr later) all = number_of P r ns later all.1

-- If node b is the next node that child_watcher chooses for node a, then get_previous_server of
-- node b chooses node a, when node a is one of the nodes, its number is not 0, and all numbers are
-- below 1410065407.
pub scan_previous-scan_next :
    (ns : List ℕ) (a b : ℕ)
    → All (λ n. n < next_limit) ns
    → Numbered a ns
    → (0 < a) × (a < next_limit)
    → b < next_limit
    → scan_next (pos a) (names ns) no_next ≡ node_name b
    → scan_previous (pos b) (names ns) no_previous ≡ node_name a
scan_previous-scan_next ns a b small here a_size b_small next =
    let above = scan_next-IsNearestAbove (pos a) (names ns) no_next in
    let below = scan_previous-IsNearestBelow (pos b) (names ns) no_previous in
    let id_a = get_node_id-node_name a (omega arith) in
    let id_b = get_node_id-node_name b (omega arith) in
    let id_next : get_node_id (scan_next (pos a) (names ns) no_next) ≡ pos b =
      ap get_node_id next ∙ id_b in
    let higher : a < b = elim above.origin [
      | inl started ↦
          let same_id = sym id_next ∙ (ap get_node_id started ∙ get_node_id-no_next) in
          absurd (ground (arith, same_id))
      | inr (among, high) ↦ ground (arith, id_next)
    ] in
    let r = scan_previous (pos b) (names ns) no_previous in
    let reaches : pos a ≤ℤ get_node_id r =
      elim (All-Among (λ c. (pos b ≤ℤ get_node_id c) ⊎ (get_node_id c ≤ℤ get_node_id r))
        (node_name a) (names ns) below.nearest here) [
          | inl far ↦ absurd (ground (arith, id_a))
          | inr near ↦ ground (arith, id_a)
        ] in
    elim below.origin [
      | inl started ↦
          let zero_id = ap get_node_id started ∙ get_node_id-no_previous in
          absurd (ground (arith, zero_id))
      | inr (among, low) ↦
          let (k, name, small_k) = number_of (λ n. n < next_limit) r ns among small in
          let id_k = ap get_node_id name ∙ get_node_id-node_name k (omega (arith, small_k)) in
          let no_higher : k ≤ a =
            elim (All-Among
              (λ c.
                (get_node_id c ≤ℤ pos a)
                ⊎ (get_node_id (scan_next (pos a) (names ns) no_next) ≤ℤ get_node_id c))
              r (names ns) above.nearest among) [
                | inl under ↦ ground (arith, id_k)
                | inr over ↦ absurd (ground (arith, id_k, id_next))
              ] in
          let equal : k ≡ a = ground (arith, id_k) in name ∙ ap node_name equal
    ]

node_name-zero : node_name 0 ≡ no_previous
unfolding decimal
node_name-zero = refl

scan_previous-zero :
    (ns : List ℕ) (b : ℕ)
    → b < int_limit
    → All (λ n. (n ≡ 0) ⊎ ((b ≤ n) × (n < int_limit))) ns
    → scan_previous (pos b) (names ns) no_previous ≡ no_previous
scan_previous-zero ns b small only =
    let below = scan_previous-IsNearestBelow (pos b) (names ns) no_previous in
    elim below.origin [
      | inl started ↦ started
      | inr (among, low) ↦
          let (k, name, which) =
            number_of (λ n. (n ≡ 0) ⊎ ((b ≤ n) × (n < int_limit))) _ ns among only in
          elim which [
            | inl zero_k ↦ name ∙ (ap node_name zero_k ∙ node_name-zero)
            | inr (high, fits) ↦
                let id_k = ap get_node_id name ∙ get_node_id-node_name k fits in
                absurd (ground (arith, id_k))
          ]
    ]

-- If every other node is node 0 or not below, get_previous_server says that there is no previous
-- server, also where node 0 is there, while the numbers are ints.
pub get_previous_server-none :
    (zoo_get : Bytes → Option Bytes) (ns : List ℕ) (b : ℕ)
    → b < int_limit
    → All (λ n. (n ≡ 0) ⊎ ((b ≤ n) × (n < int_limit))) ns
    → get_previous_server zoo_get (pos b) (names ns) ≡ none_address
unfolding get_previous_server
get_previous_server-none zoo_get ns b small only =
    ground (arith, scan_previous-zero ns b small only, same_self no_previous)

nearer_above-far :
    (n a : ℕ)
    → (n ≤ a) ⊎ (next_limit ≤ n)
    → n < int_limit
    → nearer_above (pos a) (node_name n) no_next ≡ no_next
unfolding nearer_above
nearer_above-far n a far fits = ground (arith, get_node_id-node_name n fits, get_node_id-no_next)

-- A node numbered 1410065407 or above is never chosen as the next node: where no other node is
-- above this one, there is none, while the numbers are ints.
pub scan_next-limit :
    (ns : List ℕ) (a : ℕ)
    → All (λ n. (n ≤ a) ⊎ (next_limit ≤ n)) ns
    → All (λ n. n < int_limit) ns
    → scan_next (pos a) (names ns) no_next ≡ no_next
unfolding scan_next
scan_next-limit [] a far fits = refl
scan_next-limit (n ∷ ns) a far fits =
    ap (scan_next (pos a) (names ns)) (nearer_above-far n a far.0 fits.0)
    ∙ scan_next-limit ns a far.1 fits.1
