-- ===== src/Chain/Nearest.antt =====
-- What the two scans of the nodes find.
use amazon_dynamo_db.Prelude.{
  ◌≡◌, ◌⊎◌, inl, inr, refl, ℤ, is_less, ◌≤ℤ◌, ◌<ℤ◌, Bool-cases, List, [], ◌∷◌, All, arith, ap, ◌∙◌,
}
use amazon_dynamo_db.Strings.{Bytes}
use amazon_dynamo_db.Chain.{get_node_id, scan_next, scan_previous, nearer_above, nearer_below}

abbrev pub Among : Bytes → List Bytes → Type 0
Among r [] = ⊥
Among r (c ∷ cs) = (r ≡ c) ⊎ Among r cs

-- `r` is the start, or the nearest of the nodes above `me`, and nearer than the start.
pub record IsNearestAbove (me : ℤ) (cs : List Bytes) (start r : Bytes) : Type 0 where
  pub origin : (r ≡ start) ⊎ (Among r cs × (me <ℤ get_node_id r))
  pub within : get_node_id r ≤ℤ get_node_id start
  pub nearest : All (λ c. (get_node_id c ≤ℤ me) ⊎ (get_node_id r ≤ℤ get_node_id c)) cs

-- `r` is the start, or the nearest of the nodes below `me`, and nearer than the start.
pub record IsNearestBelow (me : ℤ) (cs : List Bytes) (start r : Bytes) : Type 0 where
  pub origin : (r ≡ start) ⊎ (Among r cs × (get_node_id r <ℤ me))
  pub within : get_node_id start ≤ℤ get_node_id r
  pub nearest : All (λ c. (me ≤ℤ get_node_id c) ⊎ (get_node_id c ≤ℤ get_node_id r)) cs

-- A round takes the node, or leaves what there is.
nearer_above-cases :
    (me : ℤ) (c start : Bytes)
    → ((nearer_above me c start ≡ c) × (me <ℤ get_node_id c) × (get_node_id c <ℤ get_node_id start))
      ⊎ ((nearer_above me c start ≡ start)
          × ((get_node_id c ≤ℤ me) ⊎ (get_node_id start ≤ℤ get_node_id c)))
unfolding nearer_above
nearer_above-cases me c start = elim (Bool-cases (is_less me (get_node_id c))) [
  | inr low ↦ inr (rw low refl, inl (ground (arith, low)))
  | inl above ↦ elim (Bool-cases (is_less (get_node_id c) (get_node_id start))) [
    | inl near ↦ inl (rw (above, near) refl, ground (arith, above), ground (arith, near))
    | inr far ↦ inr (rw (above, far) refl, inr (ground (arith, far)))
  ]
]

nearer_below-cases :
    (me : ℤ) (c start : Bytes)
    → ((nearer_below me c start ≡ c) × (get_node_id c <ℤ me) × (get_node_id start <ℤ get_node_id c))
      ⊎ ((nearer_below me c start ≡ start)
          × ((me ≤ℤ get_node_id c) ⊎ (get_node_id c ≤ℤ get_node_id start)))
unfolding nearer_below
nearer_below-cases me c start = elim (Bool-cases (is_less (get_node_id c) me)) [
  | inr high ↦ inr (rw high refl, inl (ground (arith, high)))
  | inl below ↦ elim (Bool-cases (is_less (get_node_id start) (get_node_id c))) [
    | inl near ↦ inl (rw (below, near) refl, ground (arith, below), ground (arith, near))
    | inr far ↦ inr (rw (below, far) refl, inr (ground (arith, far)))
  ]
]

pub scan_next-IsNearestAbove :
    (me : ℤ) (cs : List Bytes) (start : Bytes) → IsNearestAbove me cs start (scan_next me cs start)
unfolding scan_next
scan_next-IsNearestAbove me [] start = record {
  origin = inl refl;
  within = omega arith;
  nearest = tt;
}
scan_next-IsNearestAbove me (c ∷ cs) start =
    let start' = nearer_above me c start in
    let rest = scan_next-IsNearestAbove me cs start' in
    let within' = rest.within in
    elim (nearer_above-cases me c start) [
      | inl (taken, above, near) ↦
          let below : get_node_id (scan_next me cs start') ≤ℤ get_node_id c =
            rw (ap get_node_id taken) at within' in
          record {
            origin = elim rest.origin [
              | inl same_start ↦ inr (inl (same_start ∙ taken), rw (same_start ∙ taken) above)
              | inr (among, high) ↦ inr (inr among, high)
            ];
            within = omega arith;
            nearest = (inr below, rest.nearest);
          }
      | inr (left, far) ↦
          let below : get_node_id (scan_next me cs start') ≤ℤ get_node_id start =
            rw (ap get_node_id left) at within' in
          record {
            origin = elim rest.origin [
              | inl same_start ↦ inl (same_start ∙ left)
              | inr (among, high) ↦ inr (inr among, high)
            ];
            within = below;
            nearest =
                (elim far [ inl low ↦ inl low | inr beyond ↦ inr (omega arith) ], rest.nearest);
          }
    ]

pub scan_previous-IsNearestBelow :
    (me : ℤ) (cs : List Bytes) (start : Bytes)
    → IsNearestBelow me cs start (scan_previous me cs start)
unfolding scan_previous
scan_previous-IsNearestBelow me [] start = record {
  origin = inl refl;
  within = omega arith;
  nearest = tt;
}
scan_previous-IsNearestBelow me (c ∷ cs) start =
    let start' = nearer_below me c start in
    let rest = scan_previous-IsNearestBelow me cs start' in
    let within' = rest.within in
    elim (nearer_below-cases me c start) [
      | inl (taken, below, near) ↦
          let above : get_node_id c ≤ℤ get_node_id (scan_previous me cs start') =
            rw (ap get_node_id taken) at within' in
          record {
            origin = elim rest.origin [
              | inl same_start ↦ inr (inl (same_start ∙ taken), rw (same_start ∙ taken) below)
              | inr (among, low) ↦ inr (inr among, low)
            ];
            within = omega arith;
            nearest = (inr above, rest.nearest);
          }
      | inr (left, far) ↦
          let above : get_node_id start ≤ℤ get_node_id (scan_previous me cs start') =
            rw (ap get_node_id left) at within' in
          record {
            origin = elim rest.origin [
              | inl same_start ↦ inl (same_start ∙ left)
              | inr (among, low) ↦ inr (inr among, low)
            ];
            within = above;
            nearest =
                (elim far [ inl high ↦ inl high | inr beyond ↦ inr (omega arith) ], rest.nearest);
          }
    ]
