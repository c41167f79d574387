-- ===== src/Remote/Connect.antt =====
-- What a client keeps of a connection.
use amazon_dynamo_db.Prelude.{
  ℕ, suc, ◌+◌, ◌-◌, ◌%◌, ◌^◌, ◌<◌, ◌≡◌, ◌≢◌, refl, ap, ◌∙◌, ℤ, pos, negsuc, minus_one, Option, none,
  some, List, [], ◌∷◌, ◌++◌, length, take, drop, arith, take-length, All, true, ◌⊎◌, take-append_le,
  drop-append_ge, Bool-cases, inl, inr, int_limit,
}
use amazon_dynamo_db.Memory.Spend.{
  IsAmple, IsAmple-spend, spend, malloc-IsAmple, free-spend, refuse, malloc-granted, malloc-refused,
}
use amazon_dynamo_db.Strings.{Bytes}
use amazon_dynamo_db.Atoi.{atoi}
use amazon_dynamo_db.Atoi.Decimal.{decimal, atoi-decimal}
use amazon_dynamo_db.Network.{World, Outcome, done, htons}
use amazon_dynamo_db.Remote.{
  System, Rtable, port_bits, get_index_of, connect_to, convert, network_connect, connected,
  connect_parts, split_address, rtable_connect, rtable_disconnect, network_close,
}

module _ {A : Type 0} (sys : System A) where
  -- The run gives a connection on the system's socket, which is open, and keeps two blocks, or it
  -- gives NULL and keeps none; `held` blocks were allocated before.
  abbrev pub AllOrNothing : ℕ → World → Outcome (Option Rtable) → Type 0
  AllOrNothing held w o =
      (w' : World) × (((r : Rtable) × (o ≡ done (some r) w')
          × (sys.socket ≡ some r.sockfd)
          × (w'.closed ≡ w.closed)
          × (w'.memory.allocated + w.memory.freed + held
              ≡ w.memory.allocated + w'.memory.freed + 2))
        ⊎ ((o ≡ done none w')
            × (w'.memory.allocated + w.memory.freed + held ≡ w.memory.allocated + w'.memory.freed)))

  -- The same for `network_connect`, which allocates nothing.
  Connects : World → Outcome (Option Rtable) → Type 0
  Connects w o =
      ((r : Rtable) × (o ≡ done (some r) w) × (sys.socket ≡ some r.sockfd))
      ⊎ ((cs : List ℕ) × (o ≡ done none (record w { closed = cs })))

  convert-Connects :
      (address : Bytes) (port : ℤ) (fd : ℕ) (w : World) (found : Option A)
      → sys.socket ≡ some fd
      → Connects w (convert sys address port fd found w)
  unfolding Connects convert connect_to
  convert-Connects address port fd w none there = inr (fd ∷ w.closed, refl)
  convert-Connects address port fd w (some a) there =
      elim (Bool-cases (sys.connects a (htons (port_bits port)))) [
        | inl made ↦
            let r : Rtable = record { server_address = address; server_port = port; sockfd = fd } in
            inl (r, ground (arith, made), there)
        | inr refused ↦ inr (fd ∷ w.closed, ground (arith, refused))
      ]

  network_connect-Connects :
      (address : Bytes) (port : ℤ) (w : World) (s : Option ℕ)
      → sys.socket ≡ s
      → Connects w (network_connect sys address port s w)
  unfolding Connects network_connect
  network_connect-Connects address port w none there = inr (w.closed, refl)
  network_connect-Connects address port w (some fd) there =
      convert-Connects address port fd w (sys.inet_pton address) there

  connect_parts-AllOrNothing :
      (address : Bytes) (port : ℤ) (w : World) → AllOrNothing 2 w (connect_parts sys address port w)
  unfolding connect_parts connected Connects
  connect_parts-AllOrNothing address (negsuc n) w = (
    record w { memory = spend 0 2 w.memory },
    inr (ground (arith, free-spend w.memory, free-spend (spend 0 1 w.memory)), omega arith),
  )
  connect_parts-AllOrNothing address (pos n) w =
      elim (network_connect-Connects address (pos n) w sys.socket refl) [
        | inl (r, run, there) ↦ (w, inl (r, ground (arith, run), there, refl, omega arith))
        | inr (cs, run) ↦ (
          record w { memory = spend 0 2 w.memory; closed = cs },
          inr (
            ground (arith, run, free-spend w.memory, free-spend (spend 0 1 w.memory)),
            omega arith,
          ),
        )
      ]

  split_address-AllOrNothing :
      (address_port : Bytes) (index : ℤ) (w : World)
      → AllOrNothing 1 w (split_address sys address_port index w)
  unfolding split_address
  split_address-AllOrNothing ap_ (negsuc n) w = (
    record w { memory = spend 0 1 w.memory },
    inr (ground (arith, free-spend w.memory), omega arith),
  )
  split_address-AllOrNothing ap_ (pos index) w =
      elim (Bool-cases (w.memory.grants w.memory.calls (index + 1))) [
        | inl granted ↦
            let w₁ : World = record w { memory = spend 1 0 w.memory } in
            let (w', out) =
              connect_parts-AllOrNothing (take index ap_) (atoi (drop (index + 1) ap_)) w₁ in
            let here = malloc-granted (index + 1) w.memory granted in
            (
              w',
              elim out [
                | inl (r, run, there, open_, count) ↦
                    inl (r, ground (arith, here, run), there, open_, omega (arith, count))
                | inr (run, count) ↦ inr (ground (arith, here, run), omega (arith, count))
              ],
            )
        | inr refused ↦ (
          record w { memory = spend 0 1 (refuse w.memory) },
          inr (
            ground
                (arith, malloc-refused (index + 1) w.memory refused, free-spend (refuse w.memory)),
            omega arith,
          ),
        )
      ]

  -- Whatever requests the allocator refuses and whatever the system answers, rtable_connect gives a
  -- connection on the new socket, leaves that open and keeps two blocks, or gives NULL and keeps no
  -- block.
  pub rtable_connect-AllOrNothing :
      (address_port : Bytes) (w : World)
      → AllOrNothing 0 w (rtable_connect sys (some address_port) w)
  unfolding rtable_connect
  rtable_connect-AllOrNothing ap_ w = elim (Bool-cases (w.memory.grants w.memory.calls 16)) [
    | inl granted ↦
        let w₁ : World = record w { memory = spend 1 0 w.memory } in
        let (w', out) = split_address-AllOrNothing ap_ (get_index_of ap_ 58 0) w₁ in
        let here = malloc-granted 16 w.memory granted in
        (
          w',
          elim out [
            | inl (r, run, there, open_, count) ↦
                inl (r, ground (arith, here, run), there, open_, omega (arith, count))
            | inr (run, count) ↦ inr (ground (arith, here, run), omega (arith, count))
          ],
        )
    | inr refused ↦ (
      record w { memory = refuse w.memory },
      inr (ground (arith, malloc-refused 16 w.memory refused), omega arith),
    )
  ]

  get_index_of-append :
      (xs ys : Bytes) (c i : ℕ)
      → All (λ x. x ≢ c) xs
      → get_index_of (xs ++ c ∷ ys) c i ≡ pos (i + length xs)
  unfolding get_index_of
  get_index_of-append [] ys c i h = ground arith
  get_index_of-append (x ∷ xs) ys c i h =
      ground (arith, h.0, get_index_of-append xs ys c (i + 1) h.1)

  rtable_connect-parts :
      (address text : Bytes) (w : World)
      → IsAmple w.memory
      → All (λ x. x ≢ 58) address
      → rtable_connect sys (some (address ++ 58 ∷ text)) w
        ≡ connect_parts sys address (atoi text) (record w { memory = spend 2 0 w.memory })
  unfolding rtable_connect split_address
  rtable_connect-parts address text w ample plain =
      let index = get_index_of-append address text 58 0 plain in
      let front : take (length address) (address ++ 58 ∷ text) ≡ address =
        take-append_le (length address) address (58 ∷ text) (omega arith) ∙ take-length address in
      let one : length address + 1 - length address ≡ 1 = omega arith in
      let back : drop (length address + 1) (address ++ 58 ∷ text) ≡ text =
        drop-append_ge (length address + 1) address (58 ∷ text) (omega arith)
        ∙ ap (λ k. drop k (58 ∷ text)) one in
      ground (
        arith,
        malloc-IsAmple 16 ample,
        index,
        malloc-IsAmple (length address + 1) (IsAmple-spend 1 0 ample),
        front,
        ap atoi back,
      )

  -- A negative port is refused.
  pub rtable_connect-negative :
      (address text : Bytes) (n : ℕ) (w : World)
      → IsAmple w.memory
      → All (λ x. x ≢ 58) address
      → atoi text ≡ negsuc n
      → rtable_connect sys (some (address ++ 58 ∷ text)) w
        ≡ done none (record w { memory = spend 2 2 w.memory })
  unfolding connect_parts
  rtable_connect-negative address text n w ample plain read = ground (
    arith,
    rtable_connect-parts address text w ample plain,
    read,
    free-spend (spend 2 0 w.memory),
    free-spend (spend 2 1 w.memory),
  )

  -- rtable_connect reads an address without a colon, and after the colon a decimal port that is an
  -- int, and connects to that address and port modulo 2^16, when every request for memory is
  -- granted and the system gives a socket, an address and a connection.
  pub rtable_connect-decimal :
      (address : Bytes) (wide port fd : ℕ) (a : A) (w : World)
      → IsAmple w.memory
      → All (λ x. x ≢ 58) address
      → (port < 10 ^ suc wide) × (port < int_limit)
      → (sys.socket ≡ some fd) × (sys.inet_pton address ≡ some a)
      → sys.connects a (htons (port % 2 ^ 16)) ≡ true
      → rtable_connect sys (some (address ++ 58 ∷ decimal (suc wide) port)) w
        ≡ done
            (some (record { server_address = address; server_port = pos port; sockfd = fd }))
            (record w { memory = spend 2 0 w.memory })
  unfolding connect_parts network_connect convert connect_to connected port_bits
  rtable_connect-decimal address wide port fd a w ample plain small answers made = ground (
    arith,
    rtable_connect-parts address (decimal (suc wide) port) w ample plain,
    atoi-decimal wide port small.0 small.1,
    answers.0,
    answers.1,
    made,
  )

  -- The connection is closed and both blocks are freed, also where `close` fails.
  pub rtable_disconnect-done :
      (r : Rtable) (w : World)
      → (code : ℤ) × (rtable_disconnect sys (some r) w
          ≡ done code (record w { closed = r.sockfd ∷ w.closed; memory = spend 0 2 w.memory }))
  unfolding rtable_disconnect network_close
  rtable_disconnect-done r w = elim (Bool-cases (sys.close_fails r.sockfd)) [
    | inl fails ↦
        (minus_one, ground (arith, fails, free-spend w.memory, free-spend (spend 0 1 w.memory)))
    | inr closes ↦
        (pos 0, ground (arith, closes, free-spend w.memory, free-spend (spend 0 1 w.memory)))
  ]
