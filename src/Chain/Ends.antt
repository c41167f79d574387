-- ===== src/Chain/Ends.antt =====
-- The first and the last server of the chain, as a client finds them.
use amazon_dynamo_db.Prelude.{
  ◌≡◌, ◌⊎◌, ◌∙◌, refl, ap, is_less, ◌≤ℤ◌, true, false, if◌then◌else◌, List, [], ◌∷◌, Bool-cases,
  inl, inr, arith, All,
}
use amazon_dynamo_db.Strings.{Bytes}
use amazon_dynamo_db.Chain.{get_node_id}
use amazon_dynamo_db.Chain.Nearest.{Among}

higher : Bytes → Bytes → Bytes
higher current max = if is_less (get_node_id max) (get_node_id current) then current else max

lower : Bytes → Bytes → Bytes
lower current min = if is_less (get_node_id current) (get_node_id min) then current else min

-- The `for`: the nodes with the least and the greatest number.
unfoldable pub scan_min : List Bytes → Bytes → Bytes
unfolding lower
scan_min [] min = min
scan_min (current ∷ children) min = scan_min children (lower current min)

unfoldable pub scan_max : List Bytes → Bytes → Bytes
unfolding higher
scan_max [] max = max
scan_max (current ∷ children) max = scan_max children (higher current max)

lower-taken :
    (c start : Bytes) → is_less (get_node_id c) (get_node_id start) ≡ true → lower c start ≡ c
unfolding lower
lower-taken c start h = rw h refl

lower-left :
    (c start : Bytes) → is_less (get_node_id c) (get_node_id start) ≡ false → lower c start ≡ start
unfolding lower
lower-left c start h = rw h refl

higher-taken :
    (c start : Bytes) → is_less (get_node_id start) (get_node_id c) ≡ true → higher c start ≡ c
unfolding higher
higher-taken c start h = rw h refl

higher-left :
    (c start : Bytes) → is_less (get_node_id start) (get_node_id c) ≡ false → higher c start ≡ start
unfolding higher
higher-left c start h = rw h refl

scan_min-least :
    (cs : List Bytes) (start : Bytes)
    → (get_node_id (scan_min cs start) ≤ℤ get_node_id start)
      × All (λ c. get_node_id (scan_min cs start) ≤ℤ get_node_id c) cs
unfolding scan_min
scan_min-least [] start = (omega arith, tt)
scan_min-least (c ∷ cs) start =
    let rest = scan_min-least cs (lower c start) in
    let least = rest.0 in
    elim (Bool-cases (is_less (get_node_id c) (get_node_id start))) [
      | inl taken ↦
          let here = ap get_node_id (lower-taken c start taken) in
          let below : get_node_id (scan_min cs (lower c start)) ≤ℤ get_node_id c =
            rw here at least in
          (ground (arith, below, taken), (below, rest.1))
      | inr left ↦
          let here = ap get_node_id (lower-left c start left) in
          let below : get_node_id (scan_min cs (lower c start)) ≤ℤ get_node_id start =
            rw here at least in
          (below, (ground (arith, below, left), rest.1))
    ]

scan_max-greatest :
    (cs : List Bytes) (start : Bytes)
    → (get_node_id start ≤ℤ get_node_id (scan_max cs start))
      × All (λ c. get_node_id c ≤ℤ get_node_id (scan_max cs start)) cs
unfolding scan_max
scan_max-greatest [] start = (omega arith, tt)
scan_max-greatest (c ∷ cs) start =
    let rest = scan_max-greatest cs (higher c start) in
    let greatest = rest.0 in
    elim (Bool-cases (is_less (get_node_id start) (get_node_id c))) [
      | inl taken ↦
          let here = ap get_node_id (higher-taken c start taken) in
          let above : get_node_id c ≤ℤ get_node_id (scan_max cs (higher c start)) =
            rw here at greatest in
          (ground (arith, above, taken), (above, rest.1))
      | inr left ↦
          let here = ap get_node_id (higher-left c start left) in
          let above : get_node_id start ≤ℤ get_node_id (scan_max cs (higher c start)) =
            rw here at greatest in
          (above, (ground (arith, above, left), rest.1))
    ]

-- What is found is one of the nodes, or the start.
pub scan_min-Among :
    (cs : List Bytes) (start : Bytes) → (scan_min cs start ≡ start) ⊎ Among (scan_min cs start) cs
unfolding scan_min
scan_min-Among [] start = inl refl
scan_min-Among (c ∷ cs) start = elim (scan_min-Among cs (lower c start)) [
  | inr later ↦ inr (inr later)
  | inl here ↦ elim (Bool-cases (is_less (get_node_id c) (get_node_id start))) [
    | inl taken ↦ inr (inl (here ∙ lower-taken c start taken))
    | inr left ↦ inl (here ∙ lower-left c start left)
  ]
]

pub scan_max-Among :
    (cs : List Bytes) (start : Bytes) → (scan_max cs start ≡ start) ⊎ Among (scan_max cs start) cs
unfolding scan_max
scan_max-Among [] start = inl refl
scan_max-Among (c ∷ cs) start = elim (scan_max-Among cs (higher c start)) [
  | inr later ↦ inr (inr later)
  | inl here ↦ elim (Bool-cases (is_less (get_node_id start) (get_node_id c))) [
    | inl taken ↦ inr (inl (here ∙ higher-taken c start taken))
    | inr left ↦ inl (here ∙ higher-left c start left)
  ]
]

-- The node is one of the chain, and no other has a lower number.
pub record IsLowest (r : Bytes) (cs : List Bytes) : Type 0 where
  pub among : Among r cs
  pub least : All (λ c. get_node_id r ≤ℤ get_node_id c) cs

-- The node is one of the chain, and no other has a higher number.
pub record IsHighest (r : Bytes) (cs : List Bytes) : Type 0 where
  pub among : Among r cs
  pub greatest : All (λ c. get_node_id c ≤ℤ get_node_id r) cs

pub scan_min-IsLowest :
    (first : Bytes) (cs : List Bytes) → IsLowest (scan_min (first ∷ cs) first) (first ∷ cs)
scan_min-IsLowest first cs = record {
  among = elim (scan_min-Among (first ∷ cs) first) [ inl e ↦ inl e | inr there ↦ there ];
  least = (scan_min-least (first ∷ cs) first).1;
}

pub scan_max-IsHighest :
    (first : Bytes) (cs : List Bytes) → IsHighest (scan_max (first ∷ cs) first) (first ∷ cs)
scan_max-IsHighest first cs = record {
  among = elim (scan_max-Among (first ∷ cs) first) [ inl e ↦ inl e | inr there ↦ there ];
  greatest = (scan_max-greatest (first ∷ cs) first).1;
}
