-- ===== src/Chain/Client.antt =====
-- `handle_client_connection` of source/client_hashtable.c: a client writes to the first server of the
-- chain and reads from the last one.
use amazon_dynamo_db.Prelude.{
  ◌≡◌, ◌∙◌, refl, ap, sym, Bool-cases, inl, inr, ℕ, take, true, false, ℤ, pos, ◌==ℤ◌, Bool, not,
  Option, none, some, if◌then◌else◌, List, [], ◌∷◌, ◌++◌, arith, length, ltb, ◌&&◌,
}
use amazon_dynamo_db.Memory.{Run, ok, fault, out_of_bounds}
use amazon_dynamo_db.Strings.{Bytes}
use amazon_dynamo_db.Chain.{begining, get_node_id, no_next, node_path}
use amazon_dynamo_db.Chain.Ends.{
  scan_min, scan_max, IsLowest, IsHighest, scan_min-IsLowest, scan_max-IsHighest,
}
use amazon_dynamo_db.Chain.Watcher.{Environment, push}

-- The globals of the client. `closed` are the connections that were given to `rtable_disconnect`.
pub record Client (R : Type 0) : Type 0 where
  pub rtable_head : Option R
  pub rtable_tail : Option R
  pub min_node : Bytes
  pub max_node : Bytes
  pub closed : List R

-- What the names are when they have just been allocated.
abbrev pub first_min : Bytes
first_min = begining ++ (57 ∷ 57 ∷ 57 ∷ 57 ∷ 57 ∷ 57 ∷ 57 ∷ 57 ∷ 57 ∷ 56 ∷ [])

abbrev pub first_max : Bytes
first_max = no_next

-- The address after `zoo_get`, which reads at most as many bytes as `buffer_len` says, into a buffer of
-- 512; it is empty where that has failed.
abbrev pub address_of : ℕ → Option Bytes → Bytes
address_of buffer_len none = []
address_of buffer_len (some value) = take buffer_len value

-- `buffer_len` afterwards: how many bytes were read.
abbrev pub length_read : ℕ → Option Bytes → ℕ
length_read buffer_len none = buffer_len
length_read buffer_len (some value) = length (take buffer_len value)

-- `buffer[buffer_len] = '\0'` is inside the buffer, where there is something to end.
abbrev pub has_room : ℕ → Option Bytes → Bool
has_room buffer_len none = true
has_room buffer_len (some value) = ltb (length (take buffer_len value)) 512

if_not :
    {A : Type 0} (same_node : Bool) (x y : A)
    → (if not same_node then x else y) ≡ (if same_node then y else x)
if_not true x y = refl
if_not false x y = refl

module _ {R : Type 0} where
  -- The new connection, and `buffer_len`.
  unfoldable pub reconnect : Environment R → ℕ → Bytes → Run (Option R × ℕ)
  reconnect net buffer_len name =
      let value = net.zoo_get (node_path name) in
      if has_room buffer_len value
      then ok (net.rtable_connect (address_of buffer_len value), length_read buffer_len value)
      else fault out_of_bounds

  -- The new connection to the last server, which is NULL if it failed.
  unfoldable pub connect_tail : Client R → Option R → ℤ × Client R
  connect_tail c tail =
      let c' = record c { rtable_tail = tail; closed = push c.rtable_tail c.closed } in
      elim tail [ none ↦ (pos 1, c') | some _ ↦ (pos 0, c') ]

  -- Both calls of `zoo_get` share `buffer_len`.
  unfoldable pub refresh_tail : Environment R → Bool → Bytes → Client R → ℕ → Run (ℤ × Client R)
  refresh_tail net changed max c buffer_len =
      if changed
      then (elim (reconnect net buffer_len max) [
        | ok (tail, _) ↦ ok (connect_tail c tail)
        | fault e ↦ fault e
      ])
      else ok (pos 0, c)

  unfoldable pub connect_head :
      Environment R → Bool → Bytes → Client R → Option R → ℕ → Run (ℤ × Client R)
  connect_head net changed_max max c head buffer_len =
      let c' = record c { rtable_head = head; closed = push c.rtable_head c.closed } in
      elim head [ none ↦ ok (pos 1, c') | some _ ↦ refresh_tail net changed_max max c' buffer_len ]

  unfoldable pub refresh_ends : Environment R → Bytes → Bytes → Client R → Run (ℤ × Client R)
  refresh_ends net min max c =
      let changed_min = not (get_node_id c.min_node ==ℤ get_node_id min) in
      let changed_max = not (get_node_id c.max_node ==ℤ get_node_id max) in
      let c' = record c { min_node = min; max_node = max } in
      if changed_min
      then (elim (reconnect net 512 min) [
        | ok (head, buffer_len) ↦ connect_head net changed_max max c' head buffer_len
        | fault e ↦ fault e
      ])
      else refresh_tail net changed_max max c' 512

  -- Without nodes the first one is read outside the list; a name of more than 19 characters is copied
  -- outside its buffer.
  unfoldable pub handle_client_connection :
      Environment R → List Bytes → Client R → Run (ℤ × Client R)
  handle_client_connection net [] c = fault out_of_bounds
  handle_client_connection net (first ∷ children) c =
      let min = scan_min (first ∷ children) first in
      let max = scan_max (first ∷ children) first in
      if ltb (length min) 20 && ltb (length max) 20
      then refresh_ends net min max c
      else fault out_of_bounds

  -- What a connection is when the node of one end was `old` and is `new`, and `buffer_len` bytes of its
  -- data are read.
  abbrev pub renewed : Environment R → ℕ → Bytes → Bytes → Option R → Option R
  renewed net buffer_len old new r =
      if get_node_id old ==ℤ get_node_id new
      then r
      else net.rtable_connect (address_of buffer_len (net.zoo_get (node_path new)))

  -- How many bytes are read for the last server, when the first one was `old` and is `new`.
  abbrev pub length_left : Environment R → Bytes → Bytes → ℕ
  length_left net old new =
      if get_node_id old ==ℤ get_node_id new
      then 512
      else length_read 512 (net.zoo_get (node_path new))

  reconnect-inside :
      (net : Environment R) (n : ℕ) (name : Bytes)
      → has_room n (net.zoo_get (node_path name)) ≡ true
      → reconnect net n name
        ≡ ok (
          net.rtable_connect (address_of n (net.zoo_get (node_path name))),
          length_read n (net.zoo_get (node_path name)),
        )
  unfolding reconnect
  reconnect-inside net n name h = rw h refl

  reconnect-outside :
      (net : Environment R) (n : ℕ) (name : Bytes)
      → has_room n (net.zoo_get (node_path name)) ≡ false
      → reconnect net n name ≡ fault out_of_bounds
  unfolding reconnect
  reconnect-outside net n name h = rw h refl

  -- The connection to the last server, and all else as it was.
  record TailRenewed (net : Environment R) (changed : Bool) (max : Bytes) (n : ℕ) (c c' : Client R)
      : Type 0 where
    min_kept : c'.min_node ≡ c.min_node
    max_kept : c'.max_node ≡ c.max_node
    head_kept : c'.rtable_head ≡ c.rtable_head
    tail_new : c'.rtable_tail ≡ (
        if changed
        then net.rtable_connect (address_of n (net.zoo_get (node_path max)))
        else c.rtable_tail)

  connect_tail-renewed :
      (c c' : Client R) (tail : Option R)
      → connect_tail c tail ≡ (pos 0, c')
      → c' ≡ record c { rtable_tail = tail; closed = push c.rtable_tail c.closed }
  unfolding connect_tail
  connect_tail-renewed c c' none h = absurd (ground (arith, h))
  connect_tail-renewed c c' (some r) h = sym (ap (λ x. x.1) h)

  refresh_tail-renewed :
      (net : Environment R) (changed : Bool) (max : Bytes) (n : ℕ) (c c' : Client R)
      → refresh_tail net changed max c n ≡ ok (pos 0, c')
      → TailRenewed net changed max n c c'
  unfolding refresh_tail
  refresh_tail-renewed net false max n c c' h =
      let e : c ≡ c' = ground (arith, h) in
      record {
        min_kept = ap (λ x. x.min_node) (sym e);
        max_kept = ap (λ x. x.max_node) (sym e);
        head_kept = ap (λ x. x.rtable_head) (sym e);
        tail_new = ap (λ x. x.rtable_tail) (sym e);
      }
  refresh_tail-renewed net true max n c c' h =
      elim (Bool-cases (has_room n (net.zoo_get (node_path max)))) [
        | inr outside ↦ absurd (ground (arith, h, reconnect-outside net n max outside))
        | inl inside ↦
            let tail = net.rtable_connect (address_of n (net.zoo_get (node_path max))) in
            let made : connect_tail c tail ≡ (pos 0, c') =
              ground (arith, h, reconnect-inside net n max inside) in
            let e = connect_tail-renewed c c' tail made in
            record {
              min_kept = ap (λ x. x.min_node) e;
              max_kept = ap (λ x. x.max_node) e;
              head_kept = ap (λ x. x.rtable_head) e;
              tail_new = ap (λ x. x.rtable_tail) e;
            }
      ]

  connect_head-renewed :
      (net : Environment R) (changed : Bool) (max : Bytes) (c c' : Client R) (head : Option R)
      (n : ℕ)
      → connect_head net changed max c head n ≡ ok (pos 0, c')
      → TailRenewed net changed max n (record c { rtable_head = head }) c'
  unfolding connect_head
  connect_head-renewed net changed max c c' none n h = absurd (ground (arith, h))
  connect_head-renewed net changed max c c' (some r) n h =
      let done = refresh_tail-renewed net changed max n _ c' h in
      record {
        min_kept = done.min_kept;
        max_kept = done.max_kept;
        head_kept = done.head_kept;
        tail_new = done.tail_new;
      }

  refresh_ends-renewed :
      (net : Environment R) (min max : Bytes) (c c' : Client R)
      → refresh_ends net min max c ≡ ok (pos 0, c')
      → (c'.min_node ≡ min)
        × (c'.max_node ≡ max)
        × (c'.rtable_head ≡ renewed net 512 c.min_node min c.rtable_head)
        × (c'.rtable_tail
            ≡ renewed net (length_left net c.min_node min) c.max_node max c.rtable_tail)
  unfolding refresh_ends
  refresh_ends-renewed net min max c c' h =
      let changed = not (get_node_id c.max_node ==ℤ get_node_id max) in
      let c₁ = record c { min_node = min; max_node = max } in
      elim (Bool-cases (get_node_id c.min_node ==ℤ get_node_id min)) [
        | inl kept ↦
            let run : refresh_tail net changed max c₁ 512 ≡ ok (pos 0, c') = rw kept at h in
            let done = refresh_tail-renewed net changed max 512 c₁ c' run in
            (
              done.min_kept,
              done.max_kept,
              rw kept done.head_kept,
              rw kept (
                  done.tail_new
                  ∙ if_not (get_node_id c.max_node ==ℤ get_node_id max) _ c.rtable_tail),
            )
        | inr new ↦
            let value = net.zoo_get (node_path min) in
            elim (Bool-cases (has_room 512 value)) [
              | inr outside ↦
                  absurd (ground (arith, rw new at h, reconnect-outside net 512 min outside))
              | inl inside ↦
                  let head = net.rtable_connect (address_of 512 value) in
                  let run : connect_head net changed max c₁ head (length_read 512 value)
                      ≡ ok (pos 0, c') =
                    rw (new, reconnect-inside net 512 min inside) at h in
                  let done =
                    connect_head-renewed net changed max c₁ c' head (length_read 512 value) run in
                  (
                    done.min_kept,
                    done.max_kept,
                    rw new done.head_kept,
                    rw new (
                        done.tail_new
                        ∙ if_not (get_node_id c.max_node ==ℤ get_node_id max) _ c.rtable_tail),
                  )
            ]
      ]

  -- When handle_client_connection returns 0, the node that the client writes to is one of the chain
  -- with the lowest number, the one it reads from is one with the highest, and each connection is a
  -- new one exactly if the number of its node has changed; a new one is made to the address in the
  -- data of its node, cut to 512 bytes, or for the last node, when the data of a new first one has
  -- been read, to as many bytes as that had, and to an empty address when the data cannot be read.
  pub handle_client_connection-ends :
      (net : Environment R) (first : Bytes) (children : List Bytes) (c c' : Client R)
      → handle_client_connection net (first ∷ children) c ≡ ok (pos 0, c')
      → IsLowest c'.min_node (first ∷ children)
        × IsHighest c'.max_node (first ∷ children)
        × (c'.rtable_head ≡ renewed net 512 c.min_node c'.min_node c.rtable_head)
        × (c'.rtable_tail
            ≡ renewed net
                (length_left net c.min_node c'.min_node)
                c.max_node
                c'.max_node
                c.rtable_tail)
  unfolding handle_client_connection
  handle_client_connection-ends net first children c c' h =
      let all = first ∷ children in
      let min = scan_min all first in
      let max = scan_max all first in
      let renew : refresh_ends net min max c ≡ ok (pos 0, c') = ground (arith, h) in
      let ends = refresh_ends-renewed net min max c c' renew in
      (
        rw ends.0 (scan_min-IsLowest first children),
        rw ends.1 (scan_max-IsHighest first children),
        rw ends.0 ends.2,
        rw (ends.0, ends.1) ends.3,
      )
